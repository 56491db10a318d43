-- ===== src/Conventions/Audit.antt =====
-- The audit events of audit.go in AuditSink of pgconv.go: appended only, and about a known actor.
use peristera.Prelude.{
  ◌≡◌, refl, ap, ◌∙◌, String, ◌||◌, some, List, [], ◌∷◌, ◌++◌, str_eq, ok, inl, inr, Bool-cases,
}
use peristera.Prelude.Exec.{Keeps}
use peristera.Pii.{Subject, is_zero}
use peristera.Database.{Db}
use peristera.Database.Rules.{On, Leads, Leads-bind, Leads-mono, Leads-fresh_id}
use peristera.Conventions.{
  AuditObject, AuditEvent, Lens, find_token, has_event, insert_event, lookup_token, save_token,
  token_for, append_event, record_event, emit,
}
use peristera.Conventions.Frame.{on_tables-Leads, on_tables-Keeps, token_for-Keeps}
use peristera.Conventions.Pseudonym.{TokenIs, token_for-TokenIs}

insert_event-append :
    (e : AuditEvent) (events : List AuditEvent)
    → (insert_event e events).0 ≡ ok tt
    → (insert_event e events).1 ≡ events ++ e ∷ []
unfolding insert_event
insert_event-append e events h = elim (Bool-cases (has_event e.event_id events)) [
  | inl taken ↦ cc (rw taken at h)
  | inr free ↦ rw free refl
]

module _ {T : Type 0} (l : Lens T) where
  abbrev pub events : T → List AuditEvent
  events t = (l.view t).audit_events

  -- The log is `before` and one event more: the action, the object and the actor's token.
  pub record IsRecorded (before : List AuditEvent) (actor : Subject) (action : String)
      (obj : AuditObject) (t : T) : Type 0 where
    pub event : AuditEvent
    pub appended : events t ≡ before ++ event ∷ []
    pub by : TokenIs l actor event.actor_token t
    pub did : event.action ≡ action
    pub to_object : event.object ≡ obj

  lookup_token-events :
      (before : List AuditEvent) (s : Subject)
      → Keeps (On (λ t. events t ≡ before)) (lookup_token l s)
  unfolding lookup_token
  lookup_token-events before s = on_tables-Keeps l (λ c. c.audit_events ≡ before) _ (λ c h. h)

  save_token-events :
      (before : List AuditEvent) (tok : String) (s : Subject)
      → Keeps (On (λ t. events t ≡ before)) (save_token l tok s)
  unfolding save_token
  save_token-events before tok s = on_tables-Keeps l (λ c. c.audit_events ≡ before) _ (λ c h. h)

  token_for-events :
      (before : List AuditEvent) (s : Subject) → Keeps (On (λ t. events t ≡ before)) (token_for l s)
  token_for-events before s =
      token_for-Keeps l (λ t. events t ≡ before) (lookup_token-events before)
        (save_token-events before) s

  -- After TokenFor.
  abbrev Ready : List AuditEvent → Subject → String → T → Type 0
  Ready before actor tok t = (events t ≡ before) × TokenIs l actor tok t

  token_for-Ready :
      (before : List AuditEvent) (actor : Subject)
      → Leads (λ t. events t ≡ before) (token_for l actor) (Ready before actor)
  token_for-Ready before actor = record {
    run = λ db tok h e.
        ((token_for-events before actor).at db h, (token_for-TokenIs l actor).run db tok tt e);
  }

  append_event-IsRecorded :
      (before : List AuditEvent) (actor : Subject) (e : AuditEvent)
      → Leads
          (Ready before actor e.actor_token)
          (append_event l e)
          (λ _. IsRecorded before actor e.action e.object)
  unfolding append_event
  append_event-IsRecorded before actor e =
      Leads-mono _ _ _ (λ t h. h)
        (λ a t (q, tok). record { event = e; appended = q; by = tok; did = refl; to_object = refl })
        (on_tables-Leads l
          (λ c. (c.audit_events ≡ before) × (find_token actor c.pseudonyms ≡ some e.actor_token))
          (λ _ c.
            (c.audit_events ≡ before ++ e ∷ [])
            × (find_token actor c.pseudonyms ≡ some e.actor_token))
          _
          (λ c a (q, tok) h. (
            insert_event-append e c.audit_events h ∙ ap (λ (x : List AuditEvent). x ++ e ∷ []) q,
            tok,
          )))

  record_event-IsRecorded :
      (before : List AuditEvent) (actor : Subject) (action : String) (obj : AuditObject)
      (tok : String)
      → Leads
          (Ready before actor tok)
          (record_event l action obj tok)
          (λ _. IsRecorded before actor action obj)
  unfolding record_event
  record_event-IsRecorded before actor action obj tok =
      Leads-bind (λ _. Ready before actor tok) _ _ (Leads-fresh_id _)
        (λ id.
          Leads-bind (λ _. Ready before actor tok) _ _ (record { run = λ db n h e. h })
            (λ now. append_event-IsRecorded before actor _))

  -- Emit that returns no error has appended one event to the log and changed none before it: the event
  -- has the action and the object, and the token that the actor is mapped to afterwards.
  pub emit_records :
      (actor : Subject) (action : String) (obj : AuditObject) (db : Db T)
      → (emit l actor action obj db).0 ≡ ok tt
      → IsRecorded (events db.tables) actor action obj (emit l actor action obj db).1.tables
  unfolding emit
  emit_records actor action obj db h = elim (Bool-cases (is_zero actor)) [
    | inl zero_actor ↦ cc (rw zero_actor at h)
    | inr known ↦
        elim (Bool-cases (str_eq action "" || str_eq obj.type_name "" || str_eq obj.object_id "")) [
          | inl bad ↦ cc (rw (known, bad) at h)
          | inr good ↦
              rw (known, good)
                ((Leads-bind (Ready (events db.tables) actor) (token_for l actor)
                    (record_event l action obj) (token_for-Ready (events db.tables) actor)
                    (record_event-IsRecorded (events db.tables) actor action obj)).run
                  db tt refl (rw (known, good) at h))
        ]
  ]
