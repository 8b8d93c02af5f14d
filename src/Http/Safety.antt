-- ===== src/Http/Safety.antt =====
-- What a handler may do to the process: leave the service in a sound state, give back the slot that it
-- takes, and send at most one transfer. Each layer around a handler keeps that.
use ledger_service.Prelude.{ℕ, ◌+◌, ◌≡◌, refl, ◌⊎◌, inl, inr, String, ◌∷◌, ltb, Bool-cases, arith}
use ledger_service.Domain.{Result, ok, err}
use ledger_service.Http.Handlers.{
  Process, Handler, answer_input, respond, handle_ready, ledger_health, reject, take_slot, wrap,
  http_middleware, recover_panics,
}
use ledger_service.Http.Metrics.{Samples, begin_admission}
use ledger_service.Http.Request.{HttpRequest, Web, Decoded, decode_json}
use ledger_service.Http.Writer.{Body}
use ledger_service.Sdk.{Transfer}
use ledger_service.Service.Rules.Ledger.{Wp-now}
use ledger_service.Service.Rules.Steps.{Sends}
use ledger_service.Service.Rules.{LedgerLaws, IsSound, Later, submissions}
use ledger_service.Service.World.{Service, World, M, now}

module _ {S : Type 0} (s : Service S) (laws : LedgerLaws s.env) where
  -- From `p` the process has come to `p'`: nothing is lost, no slot either, and no transfer was sent,
  -- or one of which `P` holds.
  pub record Handled (P : S → Transfer → Type 0) (p p' : Process S) : Type 0 where
    pub sound : IsSound s laws p'.world
    pub later : Later s laws p.world.env p'.world.env
    pub held : p'.held ≡ p.held
    pub sent :
        (submissions p'.world.events ≡ submissions p.world.events)
        ⊎ ((t : Transfer) × P p'.world.env t
            × (submissions p'.world.events ≡ t ∷ submissions p.world.events))

  -- a handler that does so for every request
  abbrev pub IsSafe : (HttpRequest → S → Transfer → Type 0) → Handler S → Type 0
  IsSafe P handler =
      (request : HttpRequest) (p : Process S)
      → IsSound s laws p.world
      → Handled (P request) p (handler request p).1

  pub Handled-refl :
      (P : S → Transfer → Type 0) (p : Process S) → IsSound s laws p.world → Handled P p p
  Handled-refl P p sound = record { sound = sound; later = λ x h. h; held = refl; sent = inl refl }

  -- the samples do not matter, nor does a step before that sends nothing
  Handled-samples :
      {P : S → Transfer → Type 0} {p p' : Process S} {samples : Samples}
      → Handled P p p'
      → Handled P p (record p' { samples = samples })
  Handled-samples h = record { sound = h.sound; later = h.later; held = h.held; sent = h.sent }

  ledger_health-Handled :
      (P : S → Transfer → Type 0) (p : Process S)
      → IsSound s laws p.world
      → Handled P p (ledger_health s p).1
  unfolding ledger_health now
  ledger_health-Handled P p sound =
      let (sound', later, _) = Wp-now s laws p.world sound in
      record { sound = sound'; later = later; held = refl; sent = inl refl }

  answer_input-Handled :
      {A B : Type 0} (P : S → Transfer → Type 0) (N : A → Result (B × ℕ) → S → Type 0)
      (Q : A → S → Transfer → Type 0) (method : A → M S (B × ℕ)) (body : B → Body) (p : Process S)
      → IsSound s laws p.world
      → ((input : A) (w : World S)
          → IsSound s laws w
          → Sends s laws (N input) (Q input) (method input) w)
      → (r : Result A) → ((input : A) (e : S) (t : Transfer) → r ≡ ok input → Q input e t → P e t)
      → Handled P p (answer_input method body r p).1
  unfolding answer_input
  answer_input-Handled P N Q method body p sound sends (err e) asked = Handled-refl P p sound
  answer_input-Handled P N Q method body p sound sends (ok input) asked =
      let (sound', later, sent) = (sends input p.world sound).run in
      record {
        sound = sound';
        later = later;
        held = refl;
        sent = elim sent [
          | inl (same, _) ↦ inl same
          | inr (t, holds, one) ↦ inr (t, asked input _ t refl holds, one)
        ];
      }

  module _ (P : HttpRequest → S → Transfer → Type 0) where
    -- a method of the service behind `decodeJSON`
    pub respond-IsSafe :
        {D A B : Type 0} (web : Web D) (decode : D → Decoded D A) (method : A → M S (B × ℕ))
        (body : B → Body) (N : A → Result (B × ℕ) → S → Type 0) (Q : A → S → Transfer → Type 0)
        → ((input : A) (w : World S)
            → IsSound s laws w
            → Sends s laws (N input) (Q input) (method input) w)
        → ((request : HttpRequest) (input : A) (e : S) (t : Transfer)
            → decode_json web decode request ≡ ok input
            → Q input e t
            → P request e t)
        → IsSafe P (respond s web decode method body)
    unfolding respond
    respond-IsSafe web decode method body N Q sends asked request p sound =
        answer_input-Handled (P request) N Q method body p sound sends
          (decode_json web decode request)
          (λ input e t read holds. asked request input e t read holds)

    pub ready-IsSafe : {D : Type 0} (web : Web D) → IsSafe P (handle_ready s web)
    unfolding handle_ready
    ready-IsSafe web request p sound = ledger_health-Handled (P request) p sound

    pub middleware-IsSafe :
        (route : String) (next : Handler S) → IsSafe P next → IsSafe P (http_middleware route next)
    unfolding http_middleware
    middleware-IsSafe route next safe request p sound =
        let h = safe request p sound in
        record { sound = h.sound; later = h.later; held = h.held; sent = h.sent }

    pub recover_panics-IsSafe : (next : Handler S) → IsSafe P next → IsSafe P (recover_panics next)
    unfolding recover_panics
    recover_panics-IsSafe next safe request p sound =
        let h = safe request p sound in
        record { sound = h.sound; later = h.later; held = h.held; sent = h.sent }

    take_slot-IsSafe :
        (limit : ℕ) (next : Handler S) → IsSafe P next → IsSafe P (take_slot limit next)
    unfolding take_slot reject
    take_slot-IsSafe limit next safe request p sound = elim (Bool-cases (ltb p.held limit)) [
      | inl free ↦
          let h =
            safe request (record p { held = p.held + 1; samples = begin_admission p.samples })
              sound in
          rw free (record {
            sound = h.sound;
            later = h.later;
            held = omega (arith, h.held);
            sent = h.sent;
          })
      | inr full ↦ rw full (Handled-samples (Handled-refl (P request) p sound))
    ]

    pub wrap-IsSafe : (limit : ℕ) (next : Handler S) → IsSafe P next → IsSafe P (wrap s limit next)
    unfolding wrap reject ledger_health now
    wrap-IsSafe limit next safe request p sound =
        let (sound', later, _) = Wp-now s laws p.world sound in
        let h = take_slot-IsSafe limit next safe request (ledger_health s p).1 sound' in
        elim (Bool-cases (ledger_health s p).0.ready) [
          | inl ready ↦ rw ready (record {
            sound = h.sound;
            later = λ x holds. h.later x (later x holds);
            held = h.held;
            sent = h.sent;
          })
          | inr stalled ↦ rw stalled (Handled-samples (ledger_health-Handled (P request) p sound))
        ]
