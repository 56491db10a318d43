-- ===== src/Conventions/Frame.antt =====
-- What the code over the shared tables (pgconv.go, pseudonym.go, audit.go, search.go) leaves alone in
-- an app's database, and rules for statements on the three tables.
use peristera.Prelude.{◌≡◌, String, Option, none, some, Result, ok, err}
use peristera.Prelude.Exec.{Keeps, Keeps-raise, Keeps-pure, Keeps-bind, Keeps-if, keeps_rules}
use peristera.Pii.{Subject}
use peristera.Database.{fresh_id}
use peristera.Database.Rules.{On, Leads, Leads-stmt, Keeps-stmt, Keeps-fresh_id}
use peristera.Conventions.{
  Tables, Lens, AuditObject, AuditEvent, SearchDoc, on_tables, lookup_token, save_token, after_save,
  save_new, token_or_new, token_for, append_event, record_event, emit, upsert_doc, delete_doc, feed,
  remove_doc,
}

module _ {T : Type 0} (l : Lens T) where
  -- A property of an app's tables that the three shared tables have no part in.
  abbrev pub IsFrame : (T → Type 0) → Type 0
  IsFrame P = (t : T) (c : Tables) → P t → P (l.replace t c)

  -- What the reads and the writes of the mapping keep, the allocation of a token keeps.
  module _ (P : T → Type 0) (reads : (s : Subject) → Keeps (On P) (lookup_token l s))
      (writes : (tok : String) (s : Subject) → Keeps (On P) (save_token l tok s)) where
    after_save-Keeps :
        (s : Subject) (tok : String) (r : Result (Unit {0})) → Keeps (On P) (after_save l s tok r)
    unfolding after_save
    after_save-Keeps s tok (ok u) = record { at = λ db h. h }
    after_save-Keeps s tok (err e) = record { at = λ db h. (reads s).at db h }

    save_new-Keeps : (s : Subject) (tok : String) → Keeps (On P) (save_new l s tok)
    unfolding save_new
    save_new-Keeps s tok = record {
      at = λ db h.
          (after_save-Keeps s tok (save_token l tok s db).0).at (save_token l tok s db).1
            ((writes tok s).at db h);
    }

    token_or_new-Keeps : (s : Subject) (o : Option String) → Keeps (On P) (token_or_new l s o)
    unfolding token_or_new
    token_or_new-Keeps s (some tok) = Keeps-pure tok
    token_or_new-Keeps s none = Keeps-bind fresh_id _ (Keeps-fresh_id P) (save_new-Keeps s)

    pub token_for-Keeps : (s : Subject) → Keeps (On P) (token_for l s)
    unfolding token_for
    token_for-Keeps s = Keeps-bind (lookup_token l s) _ (reads s) (token_or_new-Keeps s)

  module _ (P : T → Type 0) (frame : IsFrame P) where
    on_tables-Frame : {A : Type 0} (f : Tables → Result A × Tables) → Keeps (On P) (on_tables l f)
    unfolding on_tables
    on_tables-Frame f = Keeps-stmt P _ (λ t h. frame t (f (l.view t)).1 h)

    lookup_token-Frame : (s : Subject) → Keeps (On P) (lookup_token l s)
    unfolding lookup_token
    lookup_token-Frame s = on_tables-Frame _

    save_token-Frame : (tok : String) (s : Subject) → Keeps (On P) (save_token l tok s)
    unfolding save_token
    save_token-Frame tok s = on_tables-Frame _

    token_for-Frame : (s : Subject) → Keeps (On P) (token_for l s)
    token_for-Frame = token_for-Keeps P lookup_token-Frame save_token-Frame

    append_event-Frame : (e : AuditEvent) → Keeps (On P) (append_event l e)
    unfolding append_event
    append_event-Frame e = on_tables-Frame _

    record_event-Frame :
        (action : String) (obj : AuditObject) (token : String)
        → Keeps (On P) (record_event l action obj token)
    unfolding record_event
    record_event-Frame action obj token =
        Keeps-bind fresh_id _ (Keeps-fresh_id P)
          λ id. Keeps-bind _ _ (record { at = λ db h. h }) λ now. append_event-Frame _

    -- An audit event, a search document and its removal keep what is not about the shared tables.
    pub emit-Frame :
        (actor : Subject) (action : String) (obj : AuditObject)
        → Keeps (On P) (emit l actor action obj)
    unfolding emit
    emit-Frame actor action obj =
        search (Keeps-if, keeps_rules, token_for-Frame, record_event-Frame)

    pub feed-Frame : (d : SearchDoc) → Keeps (On P) (feed l d)
    unfolding feed upsert_doc
    feed-Frame d = search (Keeps-if, Keeps-raise, on_tables-Frame)

    pub remove_doc-Frame : (id : String) → Keeps (On P) (remove_doc l id)
    unfolding remove_doc delete_doc
    remove_doc-Frame id = search (Keeps-if, Keeps-raise, on_tables-Frame)

  -- A statement on the three tables, by what it does to them.
  pub on_tables-Leads :
      {A : Type 0} (P : Tables → Type 0) (Q : A → Tables → Type 0) (f : Tables → Result A × Tables)
      → ((c : Tables) (a : A) → P c → (f c).0 ≡ ok a → Q a (f c).1)
      → Leads (λ t. P (l.view t)) (on_tables l f) (λ a t. Q a (l.view t))
  unfolding on_tables
  on_tables-Leads P Q f k =
      Leads-stmt _ _ _ (λ t a h e. rw (l.view-replace t (f (l.view t)).1) (k (l.view t) a h e))

  pub on_tables-Keeps :
      {A : Type 0} (P : Tables → Type 0) (f : Tables → Result A × Tables)
      → ((c : Tables) → P c → P (f c).1)
      → Keeps (On (λ t. P (l.view t))) (on_tables l f)
  unfolding on_tables
  on_tables-Keeps P f k =
      Keeps-stmt _ _ (λ t h. rw (l.view-replace t (f (l.view t)).1) (k (l.view t) h))
