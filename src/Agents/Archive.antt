-- ===== src/Agents/Archive.antt =====
-- The archive under any schedule of the actors: messages delivered in any order, late, more than once, or
-- never, audits that overlap with each other and with everything else, and audits that break off anywhere
-- behind their upload.
use safe_context.Base.{
  ℕ, ◌≡◌, refl, sym, ap, ◌∙◌, inl, inr, Bool, true, false, ◌&&◌, ◌||◌, List, [], ◌∷◌, ◌++◌, Option,
  none, some, any, All, All-append, All-mono, ◌==◌, ==_refl, if◌then◌else◌, Bool-cases,
  Option-cases,
}
use mathlib.Core.Path.{subst}
use safe_context.Store.{Text, Operation, Artifact, original, Db, Task}
use safe_context.Evidence.{Host, text_eq}
use safe_context.Evidence.Chained.{text_eq_refl}
use safe_context.Evidence.Seal.{seal_operation}
use safe_context.Agents.{Policy, Services, World, skipped, find_operation, find_outbox, document_of}
use safe_context.Agents.Auditor.{
  archives, is_original, put_object, complete_operation, Uploaded, done, uploaded, upload,
  audit_loaded, audit_upload, audit_commit,
}
use safe_context.Agents.Detector.{process_scan}
use safe_context.Agents.Sanitizer.{process_sanitize}
use safe_context.Agents.Rescan.{rescan_operation}
use safe_context.Agents.Unchanged.{
  same_outbox, SameArchive, process_scan-archive, process_sanitize-archive,
  rescan_operation-archive,
}

-- An audit between its upload and its commit.
pub record Run : Type 0 where
  pub operation_id : ℕ
  pub digest : Text

pub record Site : Type 0 where
  pub world : World
  pub runs : List Run

-- What an upload leaves: a run, where the object was written.
abbrev pub begin : ℕ → Uploaded → Site → Site
begin id (done outcome) s = s
begin id (uploaded digest objects) s =
    let w = s.world in
    record {
      world = record w { objects = objects };
      runs = record { operation_id = id; digest = digest } ∷ s.runs;
    }

-- One step of some actor. The services but for the digest, the policy and the time may differ from one to
-- the next; a run whose process is gone never gets to its commit.
pub data Step (host : Host) (s : Site) : Site → Type 0 where
  scans :
      (v : Services) (p : Policy) (id : ℕ)
      → Step host s (record s { world = (process_scan v p id s.world).0 })
  sanitizes :
      (sends : Task → Bool) (id : ℕ)
      → Step host s (record s { world = (process_sanitize sends id s.world).0 })
  rescans :
      (v : Services) (id : ℕ) → Step host s (record s { world = (rescan_operation v id s.world).0 })
  uploads :
      (v : Services) (id : ℕ) → v.host ≡ host → Step host s (begin id (audit_upload v id s.world) s)
  commits :
      (v : Services) (now : ℕ) (before after : List Run) (run : Run)
      → s.runs ≡ before ++ (run ∷ after)
      → Step host s (record {
        world = (audit_commit v now run.operation_id run.digest s.world).0;
        runs = before ++ after;
      })

-- The sites that steps lead to.
pub data Reach (host : Host) (s : Site) : Site → Type 0 where
  here : Reach host s s
  next : {t u : Site} → Reach host s t → Step host t u → Reach host s u

-- The document of an operation
abbrev pub document_in : World → ℕ → Text
document_in w id = document_of (find_outbox id w.db)

-- The digest is that of the operation's document, and the document has been written under its key.
abbrev pub IsBacked : Host → World → ℕ → Text → Type 0
IsBacked host w id digest =
    (digest ≡ host.sha256 (document_in w id))
    × (any (λ o. o.0 == id && text_eq o.1 (document_in w id)) w.objects ≡ true)

-- A locked original that is backed.
abbrev pub IsArchived : Host → World → Artifact → Type 0
IsArchived host w a =
    (a.worm_locked ≡ true)
    × (is_original a.artifact_type ≡ true)
    × IsBacked host w a.operation_id a.digest

-- Every artifact is a locked original and backed by an object, and so is every run; every object is the
-- document of its operation.
pub record IsArchive (host : Host) (s : Site) : Type 0 where
  pub archived : All (IsArchived host s.world) s.world.db.artifacts
  pub in_flight : All (λ run. IsBacked host s.world run.operation_id run.digest) s.runs
  pub faithful : All (λ o. o.1 ≡ document_in s.world o.0) s.world.objects

-- A site whose objects have grown and whose documents are the same.
abbrev Grown : World → World → Type 0
Grown w w' =
    ((id : ℕ) → document_in w' id ≡ document_in w id)
    × ((p : ℕ × Text → Bool) → any p w.objects ≡ true → any p w'.objects ≡ true)

IsBacked-Grown :
    (host : Host) (w w' : World) (id : ℕ) (digest : Text)
    → Grown w w'
    → IsBacked host w id digest
    → IsBacked host w' id digest
IsBacked-Grown host w w' id digest (docs, objects) (e, there) = (
  e ∙ ap host.sha256 (sym (docs id)),
  objects (λ o. o.0 == id && text_eq o.1 (document_in w' id))
      (ap (λ d. any (λ (o : ℕ × Text). o.0 == id && text_eq o.1 d) w.objects) (docs id) ∙ there),
)

-- A step that leaves the artifacts and the runs keeps what is said of them.
IsArchive-Grown :
    (host : Host) (s : Site) (w' : World)
    → Grown s.world w'
    → w'.db.artifacts ≡ s.world.db.artifacts
    → All (λ o. o.1 ≡ document_in w' o.0) w'.objects
    → IsArchive host s
    → IsArchive host (record s { world = w' })
IsArchive-Grown host s w' g same faithful h = record {
  archived = subst (All (IsArchived host w')) (sym same) (
      All-mono (IsArchived host s.world) (IsArchived host w')
        (λ a k. (k.0, k.1, IsBacked-Grown host s.world w' a.operation_id a.digest g k.2))
        s.world.db.artifacts h.archived);
  in_flight =
      All-mono _ _ (λ (r : Run) b. IsBacked-Grown host s.world w' r.operation_id r.digest g b)
        s.runs h.in_flight;
  faithful = faithful;
}

SameArchive-IsArchive :
    (host : Host) (s : Site) (w' : World)
    → SameArchive s.world w'
    → IsArchive host s
    → IsArchive host (record s { world = w' })
SameArchive-IsArchive host s w' (a, o, docs) h =
    IsArchive-Grown host s w' (docs, λ p k. ap (any p) o ∙ k) a
      (subst (All (λ (x : ℕ × Text). x.1 ≡ document_in w' x.0)) (sym o)
        (All-mono _ _ (λ (x : ℕ × Text) k. k ∙ sym (docs x.0)) s.world.objects h.faithful))
      h

-- The object of a run is the document of its operation.
Begun : (host : Host) → ℕ → Site → Uploaded → Type 0
Begun host id s (done outcome) = Unit
Begun host id s (uploaded digest objects) =
    (digest ≡ host.sha256 (document_in s.world id))
    × (objects ≡ (id, document_in s.world id) ∷ s.world.objects)

audit_upload-Begun :
    (host : Host) (v : Services) (id : ℕ) (s : Site)
    → v.host ≡ host
    → Begun host id s (audit_upload v id s.world)
unfolding audit_upload audit_loaded upload put_object Begun
audit_upload-Begun host v id s e =
    by_archive (any (archives id) s.world.db.artifacts) (find_operation id s.world.db)
  where
    by_store :
        (stores : Bool)
        → Begun host id s (
            upload (
              if stores
              then some (
                v.host.sha256 (document_in s.world id),
                (id, document_in s.world id) ∷ s.world.objects,
              )
              else none))
    by_store true = (ap (λ h. h.sha256 (document_in s.world id)) e, refl)
    by_store false = tt

    by_operation : (o : Option Operation) → Begun host id s (audit_loaded v id o s.world)
    by_operation none = tt
    by_operation (some op) = by_store (v.stores id (document_in s.world id))

    by_archive :
        (b : Bool) (o : Option Operation)
        → Begun host id s (if b then done skipped else audit_loaded v id o s.world)
    by_archive true o = tt
    by_archive false o = by_operation o

begin-IsArchive :
    (host : Host) (id : ℕ) (s : Site) (u : Uploaded)
    → Begun host id s u
    → IsArchive host s
    → IsArchive host (begin id u s)
unfolding Begun
begin-IsArchive host id s (done outcome) k h = h
begin-IsArchive host id s (uploaded digest objects) (e, o) h =
    let w = s.world in
    let w' : World = record w { objects = objects } in
    let document = document_in w id in
    let grown : Grown w w' =
      ((λ k. refl), λ p k. ap (any p) o ∙ ap (λ b. p (id, document) || b) k ∙ or_true _) in
    let kept =
      IsArchive-Grown host s w' grown refl
        (subst (All (λ (x : ℕ × Text). x.1 ≡ document_in w x.0)) (sym o) (refl, h.faithful)) h in
    record {
      archived = kept.archived;
      in_flight = (
        (
          e,
          ap (any (λ (x : ℕ × Text). x.0 == id && text_eq x.1 document)) o
              ∙ rw (==_refl id, text_eq_refl document) refl,
        ),
        kept.in_flight,
      );
      faithful = kept.faithful;
    }
  where
    or_true : (b : Bool) → (b || true) ≡ true
    or_true true = refl
    or_true false = refl

complete_operation-rows :
    (v : Services) (now id : ℕ) (op : Operation) (digest : Text) (db : Db)
    → let db' = complete_operation v now id op digest db in
      (db'.artifacts
        ≡ db.artifacts
          ++ (record {
            operation_id = id;
            artifact_type = original;
            digest = digest;
            worm_locked = true;
          }
              ∷ []))
      × (db'.outbox ≡ db.outbox)
unfolding complete_operation seal_operation
complete_operation-rows v now id op digest db = (refl, refl)

All-middle :
    (P : Run → Type 0) (before after : List Run) (run : Run)
    → All P (before ++ (run ∷ after))
    → P run × All P (before ++ after)
All-middle P [] after run h = h
All-middle P (r ∷ before) after run h =
    let (own, rest) = All-middle P before after run h.1 in (own, (h.0, rest))

-- A commit that goes through or not, of a run that is backed.
committed :
    (host : Host) (s : Site) (v : Services) (now : ℕ) (run : Run)
    → IsBacked host s.world run.operation_id run.digest
    → IsArchive host s
    → IsArchive host
        (record s { world = (audit_commit v now run.operation_id run.digest s.world).0 })
unfolding audit_commit find_outbox
committed host s v now run backed h =
    elim (Option-cases (find_operation run.operation_id s.world.db)) [
      | inl e ↦ rw (e, audit_commit) h
      | inr (op, e) ↦ elim (Bool-cases (v.commits run.operation_id)) [
        | inr n ↦ rw (e, n, audit_commit) h
        | inl y ↦
            let rows = complete_operation-rows v now run.operation_id op run.digest s.world.db in
            rw (e, y, audit_commit) (added op rows.0 rows.1)
      ]
    ]
  where
    added :
        (op : Operation)
        → (complete_operation v now run.operation_id op run.digest s.world.db).artifacts
          ≡ s.world.db.artifacts
            ++ (record {
              operation_id = run.operation_id;
              artifact_type = original;
              digest = run.digest;
              worm_locked = true;
            }
                ∷ [])
        → (complete_operation v now run.operation_id op run.digest s.world.db).outbox
          ≡ s.world.db.outbox
        → IsArchive host (
            let w = s.world in
            record s {
              world = record w {
                db = complete_operation v now run.operation_id op run.digest s.world.db;
              };
            })
    added op artifacts outbox =
        let w = s.world in
        let w' : World = record w {
          db = complete_operation v now run.operation_id op run.digest s.world.db;
        } in
        let docs = same_outbox w.db w'.db outbox in
        let g : Grown w w' = (docs, λ p k. k) in
        record {
          archived = subst (All (IsArchived host w')) (sym artifacts) (
              All-append (IsArchived host w') w.db.artifacts _
                (All-mono (IsArchived host w) (IsArchived host w')
                  (λ a k. (k.0, k.1, IsBacked-Grown host w w' a.operation_id a.digest g k.2))
                  w.db.artifacts h.archived)
                ((refl, refl, IsBacked-Grown host w w' run.operation_id run.digest g backed), tt));
          in_flight =
              All-mono _ _ (λ (r : Run) b. IsBacked-Grown host w w' r.operation_id r.digest g b)
                s.runs h.in_flight;
          faithful = All-mono _ _ (λ (x : ℕ × Text) k. k ∙ sym (docs x.0)) w.objects h.faithful;
        }

-- Every schedule of deliveries.
Step-IsArchive : {host : Host} {s t : Site} → Step host s t → IsArchive host s → IsArchive host t
Step-IsArchive {host} {s} (scans v p id) h =
    SameArchive-IsArchive host s _ (process_scan-archive v p id s.world) h
Step-IsArchive {host} {s} (sanitizes sends id) h =
    SameArchive-IsArchive host s _ (process_sanitize-archive sends id s.world) h
Step-IsArchive {host} {s} (rescans v id) h =
    SameArchive-IsArchive host s _ (rescan_operation-archive v id s.world) h
Step-IsArchive {host} {s} (uploads v id e) h =
    begin-IsArchive host id s (audit_upload v id s.world) (audit_upload-Begun host v id s e) h
Step-IsArchive {host} {s} (commits v now before after run e) h =
    let (backed, rest) =
      All-middle (λ r. IsBacked host s.world r.operation_id r.digest) before after run
        (subst (All (λ (r : Run). IsBacked host s.world r.operation_id r.digest)) e h.in_flight) in
    committed host (record s { runs = before ++ after }) v now run backed
      (record { archived = h.archived; in_flight = rest; faithful = h.faithful })

-- The archive keeps its promises under every schedule: from a site in order, any sequence of scans,
-- sanitizer runs, rescans, uploads and commits of audits, in any order, interleaved, repeated, broken off
-- between upload and commit, with services that answer or fail anew each time, leads to a site where every
-- artifact is a locked original that has the digest of its operation's document, that very document has
-- been written under the operation's key, and nothing else ever is. An audit may write and archive it more
-- than once.
pub Reach-IsArchive :
    {host : Host} {s t : Site} → Reach host s t → IsArchive host s → IsArchive host t
Reach-IsArchive here h = h
Reach-IsArchive (next r step) h = Step-IsArchive step (Reach-IsArchive r h)
