-- ===== src/Api/Triage/Sound.antt =====
-- The invariant of the registry under triage (`TriageService.execute` of
-- src/api/services/triage_service.py).
use nightfall_photo_ingress.Base.{
  ℕ, String, Bool, true, false, ◌≡◌, refl, arith, Option, none, some, ◌==◌, if◌then◌else◌,
}
use nightfall_photo_ingress.Base.Exec.{Result, ok, err, Exec}
use nightfall_photo_ingress.Base.Exec.Keeps.{Keeps, Keeps-or_raise_bind}
use nightfall_photo_ingress.Registry.Schema.{Db}
use nightfall_photo_ingress.Registry.Conn.{is_allowed}
use nightfall_photo_ingress.Registry.WellFormed.{IsWellFormed, write_audit-IsWellFormed}
use nightfall_photo_ingress.Registry.Preserve.{set_status-IsWellFormed}
use nightfall_photo_ingress.World.{Os, World}
use nightfall_photo_ingress.World.Keeps.{IsSound, sound_rules}
use nightfall_photo_ingress.Api.Keys.{Wire}
use nightfall_photo_ingress.Registry.Transaction.{connect-IsWellFormed, conn_rules}
use nightfall_photo_ingress.Api.Keys.Sound.{persist_idempotency-BothSound}
use nightfall_photo_ingress.Api.Triage.{
  TriageResponse, TriageCall, Details, action_to_state, apply_triage, write_event, execute_new,
  after_replay, execute, or_compensate, compensate,
}

some-is_allowed :
    (accept reject defer : Bool) (state : String)
    → (if accept
        then some "accepted"
        else if reject
        then some "rejected"
        else if defer
        then some "pending"
        else none)
      ≡ some state
    → is_allowed state ≡ true
unfolding is_allowed
some-is_allowed true reject defer state e =
    let same : state ≡ "accepted" = ground arith in rw same refl
some-is_allowed false true defer state e =
    let same : state ≡ "rejected" = ground arith in rw same refl
some-is_allowed false false true state e =
    let same : state ≡ "pending" = ground arith in rw same refl
some-is_allowed false false false state e = ground arith

module _ (os : Os) (wire : Wire TriageResponse) (details : Details) (c : TriageCall) where
  write_event-IsSound :
      (phase suffix : String) → Keeps IsSound (write_event os details c phase suffix)
  unfolding write_event
  write_event-IsSound phase suffix =
      search (sound_rules, conn_rules, write_audit-IsWellFormed) depth 16

  apply_triage-IsWellFormed :
      (state now : String)
      → is_allowed state ≡ true
      → (db : Db) → IsWellFormed db
      → IsWellFormed (apply_triage wire details c state now db).1
  unfolding apply_triage
  apply_triage-IsWellFormed state now allowed db h =
      search
        (
          conn_rules, connect-IsWellFormed, persist_idempotency-BothSound, set_status-IsWellFormed,
          write_audit-IsWellFormed,
        )
        depth 30

  action_to_state-is_allowed :
      (state : String) → action_to_state c.action ≡ some state → is_allowed state ≡ true
  unfolding action_to_state
  action_to_state-is_allowed state e =
      some-is_allowed (c.action == "accept") (c.action == "reject") (c.action == "defer") state e

  compensated-IsSound :
      {A : Type 0} (m : Exec World A) (handler : Exec World Unit)
      → Keeps IsSound m
      → Keeps IsSound handler
      → Keeps IsSound (or_compensate m handler)
  compensated-IsSound m handler k kh = record { at = λ w h. after (m w).0 (m w).1 (k.at w h) }
    where
      after :
          {A : Type 0} (r : Result A) (w : World) → IsSound w → IsSound (compensate r handler w).1
      after (ok a) w h = h
      after (err e) w h = kh.at w h

  execute_new-IsSound : Keeps IsSound (execute_new os wire details c)
  unfolding execute_new
  execute_new-IsSound = Keeps-or_raise_bind _ _ _ (λ state supported.
      let allowed = action_to_state-is_allowed state supported in
      search (sound_rules, write_event-IsSound, compensated-IsSound, apply_triage-IsWellFormed)
        depth 16)

  after_replay-IsSound :
      (found : Option (ℕ × TriageResponse)) → Keeps IsSound (after_replay os wire details c found)
  unfolding after_replay
  after_replay-IsSound none = execute_new-IsSound
  after_replay-IsSound (some replayed) = search sound_rules

  pub execute-IsSound : Keeps IsSound (execute os wire details c)
  unfolding execute
  execute-IsSound = search (sound_rules, after_replay-IsSound) depth 12
