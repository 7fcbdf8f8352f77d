-- ===== src/Runner/Passing.antt =====
-- What is outside of the runner lets time pass, and its pauses and requests end.
use testing_environment.Common.{
  ℕ, zero, suc, ◌+◌, ◌-◌, ◌≤◌, ◌<◌, ◌≡◌, refl, inl, inr, String, Option, none, some, arith, ltb,
  Bool-cases, ltb→lt,
}
use testing_environment.Common.Result.{Result, ok, err}
use testing_environment.Suites.Flow.{RequestConfig}
use testing_environment.Runner.{
  HttpResult, Store, Interruption, Stop, interrupted, stuck, Outside, Exec, ◌>>=◌, pure, fail,
  continue,
}
use testing_environment.Runner.Variables.{interpolate_request}
use testing_environment.Runner.Loops.{
  now, wait_for, ensure_not_cancelled, sleep_until, sleep, http_execute, min, stopped,
}

-- The clock does not go back, a pause takes as long as it is asked to, and a request a millisecond.
pub record Passes {W : Type 0} (O : Outside W) : Type 0 where
  pub send_lem : (r : RequestConfig) (w : W) → O.clock w + 1 ≤ O.clock (O.send r w).1
  pub interruption_lem : (w : W) → O.clock w ≤ O.clock (O.interruption w).1
  pub pause_lem : (n : ℕ) (w : W) → O.clock w + n ≤ O.clock (O.pause n w)

-- From one state to another by calls of what is outside.
pub data Leads {W : Type 0} (O : Outside W) : W → W → Type 0 where
  still : {w : W} → Leads O w w
  sent : {w v : W} (r : RequestConfig) → Leads O w v → Leads O w (O.send r v).1
  looked : {w v : W} → Leads O w v → Leads O w (O.interruption v).1
  paused : {w v : W} (n : ℕ) → Leads O w v → Leads O w (O.pause n v)

pub Leads-trans : {W : Type 0} {O : Outside W} {w v u : W} → Leads O w v → Leads O v u → Leads O w u
Leads-trans a still = a
Leads-trans a (sent r b) = sent r (Leads-trans a b)
Leads-trans a (looked b) = looked (Leads-trans a b)
Leads-trans a (paused n b) = paused n (Leads-trans a b)

-- An execution that is not stuck, and whose result, if there is one, has the property.
abbrev pub Ends : {W A : Type 0} → (A → W → Type 0) → Result Stop A × W → Type 0
Ends P (ok a, w) = P a w
Ends P (err (interrupted i), w) = Unit
Ends P (err stuck, w) = ⊥

module _ {W A B : Type 0} where
  pub bind-Ends :
      (P : A → W → Type 0) (Q : B → W → Type 0) (m : Exec W A) (f : A → Exec W B) (w : W)
      → Ends P (m w)
      → ((a : A) (w' : W) → P a w' → Ends Q (f a w'))
      → Ends Q ((m >>= f) w)
  unfolding ◌>>=◌
  bind-Ends P Q m f w h k = go (m w) h
    where
      go : (r : Result Stop A × W) → Ends P r → Ends Q (continue r f)
      go (ok a, w') h = k a w' h
      go (err (interrupted i), w') h = tt
      go (err stuck, w') h = h

module _ {W : Type 0} (O : Outside W) (T : Passes O) where
  -- Later than a state, and not before a time.
  abbrev pub From : W → ℕ → {A : Type 0} → A → W → Type 0
  From v t a w = (t ≤ O.clock w) × Leads O v w

  pub now_lem : (w : W) → Ends (λ t w'. (t ≡ O.clock w) × (w' ≡ w)) (now O w)
  unfolding now
  now_lem w = (refl, refl)

  pub ensure_lem : (w : W) → Ends (From w (O.clock w)) (ensure_not_cancelled O w)
  unfolding ensure_not_cancelled fail
  ensure_lem w = go (O.interruption w) (T.interruption_lem w) (looked still)
    where
      go :
          (r : Option Interruption × W)
          → O.clock w ≤ O.clock r.1
          → Leads O w r.1
          → Ends (From w (O.clock w)) (stopped O r w)
      go (none, w') h l = (h, l)
      go (some i, w') h l = tt

  wait_for_lem : (n : ℕ) (w : W) → Ends (From w (O.clock w + n)) (wait_for O n w)
  unfolding wait_for
  wait_for_lem n w = (T.pause_lem n w, paused n still)

  later :
      {A : Type 0} (v u : W) (s t : ℕ) (r : Result Stop A × W)
      → s ≤ t
      → Leads O v u
      → Ends (From u t) r
      → Ends (From v s) r
  later v u s t (ok a, w) h l k = (omega (arith, h, k.0), Leads-trans l k.1)
  later v u s t (err (interrupted i), w) h l k = tt
  later v u s t (err stuck, w) h l k = k

  -- What a turn leaves: some fuel, and less time than that.
  turn_lem :
      (deadline start before after fuel : ℕ)
      → start ≤ before
      → before + min 250 (deadline - before) ≤ after
      → start < deadline
      → deadline < start + suc fuel
      → (1 ≤ fuel) × (deadline < after + fuel) × (start ≤ after)
  turn_lem deadline start before after fuel a b c d = ground arith

  sleep_until_lem :
      (fuel deadline : ℕ) (w : W)
      → 1 ≤ fuel
      → deadline < O.clock w + fuel
      → Ends (From w (O.clock w)) (sleep_until O fuel deadline w)
  unfolding sleep_until pure now ◌>>=◌
  sleep_until_lem zero deadline w p h = absurd (omega (arith, p))
  sleep_until_lem (suc fuel) deadline w p h = elim (Bool-cases (ltb (O.clock w) deadline)) [
    | inr q ↦ rw q (omega arith, still)
    | inl q ↦
        let early : O.clock w < deadline = ltb→lt (O.clock w) deadline q in
        rw q (
          bind-Ends (From w (O.clock w)) (From w (O.clock w)) (ensure_not_cancelled O) _ w
            (ensure_lem w)
            (λ _ v k.
              bind-Ends (From v (O.clock v + min 250 (deadline - O.clock v))) (From w (O.clock w))
                (wait_for O (min 250 (deadline - O.clock v))) _ v (wait_for_lem _ v)
                (λ _ u m.
                  let (f, d, t) =
                    turn_lem deadline (O.clock w) (O.clock v) (O.clock u) fuel k.0 m.0 early h in
                  later w u (O.clock w) (O.clock u) (sleep_until O fuel deadline u) t
                    (Leads-trans k.1 m.1) (sleep_until_lem fuel deadline u f d))))
  ]

  pub sleep_lem : (duration : ℕ) (w : W) → Ends (From w (O.clock w)) (sleep O duration w)
  unfolding sleep now ◌>>=◌
  sleep_lem duration w =
      sleep_until_lem (suc duration) (O.clock w + duration) w (omega arith) (omega arith)

  -- What came is the answer to the request.
  abbrev pub Came : RequestConfig → W → HttpResult → W → Type 0
  Came request v result w =
      (result ≡ (O.send request v).0)
      × (w ≡ (O.send request v).1)
      × (O.clock v + 1 ≤ O.clock w)
      × Leads O v w

  pub http_lem :
      (secrets : Store String) (request : RequestConfig) (store : Store String) (w : W)
      → Ends
          (Came (interpolate_request store secrets request) w)
          (http_execute O secrets request store w)
  unfolding http_execute
  http_lem secrets request store w =
      let sending = interpolate_request store secrets request in
      (refl, refl, T.send_lem sending w, sent sending still)
