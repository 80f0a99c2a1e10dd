-- ===== src/Agent/Backoff.antt =====
-- How the waiting time grows while the Hub cannot be reached (`_schedule_retry`).
use native.Mathlib.Nat.{pow-suc, mul_assoc}
use remote_host_mcp.Prelude.{
  ℕ, suc, ◌+◌, ◌*◌, ◌^◌, ◌<◌, ◌≡◌, ◌∙◌, sym, List, [], ◌∷◌, min, length, arith,
}
use remote_host_mcp.Agent.{Agent, Settings, second, max_backoff, schedule_retry}

-- Failed attempts one after the other, each at its time.
unfoldable pub fail_all : Settings → List ℕ → Agent → Agent
fail_all s [] a = a
fail_all s (now ∷ rest) a = fail_all s rest (schedule_retry s now a)

module _ (s : Settings) where
  abbrev interval : ℕ
  interval = s.report_interval_seconds * second

  double : (i k : ℕ) → i * 2 ^ suc k ≡ i * 2 ^ k * 2
  double i k = rw (pow-suc 2 k) (sym (mul_assoc i (2 ^ k) 2))

  schedule_retry-again :
      (now : ℕ) (a : Agent)
      → 0 < a.backoff
      → (schedule_retry s now a).backoff ≡ min (a.backoff * 2) max_backoff
  unfolding schedule_retry
  schedule_retry-again now a h = ground arith

  fail_all-from :
      (k : ℕ) (nows : List ℕ) (a : Agent)
      → 0 < a.backoff
      → a.backoff ≡ min (interval * 2 ^ k) max_backoff
      → (fail_all s nows a).backoff ≡ min (interval * 2 ^ (k + length nows)) max_backoff
  unfolding fail_all
  fail_all-from k [] a positive h = let e : k + 0 ≡ k = omega arith in rw e h
  fail_all-from k (now ∷ rest) a positive h =
      let again = schedule_retry-again now a positive in
      let e : k + suc (length rest) ≡ suc k + length rest = omega arith in
      rw e (
        fail_all-from (suc k) rest (schedule_retry s now a) (omega (arith, again))
          (again ∙ omega (arith, h, double interval k)))

  -- After k + 1 failures in a row the agent waits min(interval · 2^k, 300 seconds): the time
  -- doubles up to the cap and stays there.
  pub fail_all-backoff :
      (now : ℕ) (nows : List ℕ) (a : Agent)
      → 0 < s.report_interval_seconds
      → a.backoff ≡ 0
      → (fail_all s (now ∷ nows) a).backoff
        ≡ min (s.report_interval_seconds * second * 2 ^ length nows) max_backoff
  unfolding fail_all
  fail_all-backoff now nows a positive calm =
      let e : 0 + length nows ≡ length nows = omega arith in
      rw (← e) (
        fail_all-from 0 nows (schedule_retry s now a) (unfold schedule_retry in ground arith)
          (unfold schedule_retry in ground arith))
