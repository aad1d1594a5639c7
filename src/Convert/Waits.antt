-- ===== src/Convert/Waits.antt =====
-- The waiting loops of sample_app/convert_to_tablets.py, `wait_for` and `wait_node_mode`, and the clock
-- that they rely on.
use scylla_k8s_example.Base.{
  ℕ, zero, suc, ◌+◌, ◌*◌, ◌≤◌, ◌<◌, ◌≢◌, sym, subst, String, Bool, true, false, List, [], ◌∷◌,
  arith,
}
use scylla_k8s_example.Base.{Bool-cases, inl, inr, leb, leb-false→lt}
use scylla_k8s_example.Exec.{Event, slept, Env, St, Exec, diverged}
use scylla_k8s_example.Exec.Emits.{
  Extends, same, more, Extends-run, Emits, Anything, Emits-for_each,
}
use scylla_k8s_example.Exec.Halts.{
  Halts, halts_bind, clock_then, emit_then, Halts-pure, Halts-for_each, Halts-bind,
}
use scylla_k8s_example.Exec.Halts.{Halts-emit, halts_rules}
use scylla_k8s_example.Convert.Api.{Anything-Quiet}
use scylla_k8s_example.Convert.Nodes.{Node}
use scylla_k8s_example.Convert.Restart.{poll, wait_for, progress}
use scylla_k8s_example.Convert.Restart.Reads.{Emits-progress}
use scylla_k8s_example.Convert.Status.{second, all_use, poll_mode, poll_interval, wait_node_mode}
use scylla_k8s_example.Convert.Status.Reads.{Emits-phrases, Emits-progress_line}
use scylla_k8s_example.Convert.Status.Ends.{
  Halts-phrases, Halts-timed_out_line, Halts-progress_line,
}

-- What `time.monotonic()` and `time.sleep()` promise.
pub record Ticks (e : Env) : Type 0 where
  pub onward : (ev : Event) (t : List Event) → e.now t ≤ e.now (ev ∷ t)
  pub sleeps : (n : ℕ) (t : List Event) → e.now t + n * second ≤ e.now (slept n ∷ t)

module _ {e : Env} (c : Ticks e) where
  later : {t u : List Event} → Extends Anything t u → e.now t ≤ e.now u
  later same = omega arith
  later (more {ev} {u} q r) = omega (arith, later r, c.onward ev u)

  Halts-progress : (waited : ℕ) → Halts e (progress waited)
  unfolding progress
  Halts-progress waited = search halts_rules

  -- A round ends if the rounds after it do, which start a second later and before the deadline.
  poll_round :
      (fuel : ℕ) {p : Exec Bool} (deadline interval waited : ℕ)
      → 1 ≤ interval
      → Halts e p
      → Emits Anything p
      → (s : St)
      → ((s3 : St)
          → e.now s.trace < deadline
          → e.now s.trace + second ≤ e.now s3.trace
          → (poll fuel p deadline interval (waited + interval) e s3).0 ≢ diverged)
      → (poll (suc fuel) p deadline interval waited e s).0 ≢ diverged
  unfolding poll
  poll_round fuel {p} deadline interval waited one kp grows s k =
      halts_bind _ _ e s (kp.at s) λ b s1 h1.
        let now_le = later (Extends-run grows e s h1) in
        elim (Bool-cases b) [
          | inl y ↦ rw y ((Halts-pure true).at s1)
          | inr n ↦ rw n (
              subst (λ r. r.0 ≢ diverged) (sym (clock_then _ e s1))
                (elim (Bool-cases (leb deadline (e.now s1.trace))) [
                  | inl late ↦ rw late ((Halts-pure false).at s1)
                  | inr early ↦
                      let before = leb-false→lt deadline (e.now s1.trace) early in
                      let slept_on = c.sleeps interval s1.trace in
                      rw early (
                        subst (λ r. r.0 ≢ diverged) (sym (emit_then (slept interval) _ e s1))
                          (halts_bind _ _ e _ ((Halts-progress _).at _) λ u s3 h3.
                            k s3 (omega (arith, now_le, before)) (
                              omega (
                                arith,
                                now_le,
                                slept_on,
                                one,
                                later (
                                    Extends-run (Emits-progress Anything-Quiet (waited + interval))
                                      e _ h3),
                              ))))
                ]))
        ]

  -- `fuel` seconds before the deadline, `fuel + 1` rounds are enough.
  poll-Halts :
      (fuel : ℕ) {p : Exec Bool} (deadline interval waited : ℕ)
      → 1 ≤ interval
      → Halts e p
      → Emits Anything p
      → (s : St) → deadline ≤ e.now s.trace + fuel * second
      → (poll (suc fuel) p deadline interval waited e s).0 ≢ diverged
  poll-Halts zero deadline interval waited one kp grows s near =
      poll_round zero deadline interval waited one kp grows s
        (λ s3 before after. absurd (omega (arith, near, before)))
  poll-Halts (suc fuel) deadline interval waited one kp grows s near =
      poll_round (suc fuel) deadline interval waited one kp grows s λ s3 before after.
        poll-Halts fuel deadline interval (waited + interval) one kp grows s3
          (omega (arith, near, after))

  -- If the clock never goes back and a sleep takes its time, waiting for a predicate that itself ends
  -- and only adds to the history ends, for every timeout and every interval of at least a second.
  pub wait_for-Halts :
      (p : Exec Bool) (timeout : ℕ) (message : String) (interval : ℕ)
      → 1 ≤ interval
      → Halts e p
      → Emits Anything p
      → Halts e (wait_for p timeout message interval)
  unfolding wait_for
  wait_for-Halts p timeout message interval one kp grows = Halts-bind (Halts-emit _) λ _. record {
    at = λ s.
        subst (λ r. r.0 ≢ diverged) (sym (clock_then _ e s))
          (poll-Halts timeout (e.now s.trace + timeout * second) interval 0 one kp grows s
            (omega arith));
  }

  mode_round :
      (fuel : ℕ) (control n : Node) (l : List String) (want : String) (timeout deadline : ℕ)
      (s : St)
      → ((s3 : St)
          → e.now s.trace < deadline
          → e.now s.trace + second ≤ e.now s3.trace
          → (poll_mode fuel control n l want timeout deadline e s3).0 ≢ diverged)
      → (poll_mode (suc fuel) control n l want timeout deadline e s).0 ≢ diverged
  unfolding poll_mode
  mode_round fuel control n l want timeout deadline s k =
      halts_bind _ _ e s ((Halts-phrases control n l []).at s) λ found s1 h1.
        let now_le = later (Extends-run (Emits-phrases Anything-Quiet control n l []) e s h1) in
        elim (Bool-cases (all_use want found)) [
          | inl y ↦ rw y ((Halts-pure true).at s1)
          | inr u ↦ rw u (
              subst (λ r. r.0 ≢ diverged) (sym (clock_then _ e s1))
                (elim (Bool-cases (leb deadline (e.now s1.trace))) [
                  | inl late ↦ rw late (
                      (Halts-bind (Halts-for_each found (Halts-timed_out_line timeout))
                          (λ _. Halts-pure false)).at
                        s1)
                  | inr early ↦
                      let before = leb-false→lt deadline (e.now s1.trace) early in
                      rw early (
                        halts_bind _ _ e s1 ((Halts-for_each found Halts-progress_line).at s1)
                          λ v s2 h2.
                            let now_le2 = later (
                              Extends-run
                                (Emits-for_each found (Emits-progress_line Anything-Quiet)) e s1
                                h2) in
                            subst (λ r. r.0 ≢ diverged)
                              (sym (emit_then (slept poll_interval) _ e s2))
                              (k _ (omega (arith, now_le, before))
                                (omega (arith, now_le, now_le2, c.sleeps poll_interval s2.trace))))
                ]))
        ]

  poll_mode-Halts :
      (fuel : ℕ) (control n : Node) (l : List String) (want : String) (timeout deadline : ℕ)
      (s : St)
      → deadline ≤ e.now s.trace + fuel * second
      → (poll_mode (suc fuel) control n l want timeout deadline e s).0 ≢ diverged
  poll_mode-Halts zero control n l want timeout deadline s near =
      mode_round zero control n l want timeout deadline s
        (λ s3 before after. absurd (omega (arith, near, before)))
  poll_mode-Halts (suc fuel) control n l want timeout deadline s near =
      mode_round (suc fuel) control n l want timeout deadline s λ s3 before after.
        poll_mode-Halts fuel control n l want timeout deadline s3 (omega (arith, near, after))

  -- If the clock never goes back and a sleep takes its time, waiting for a node's mode ends, for every
  -- timeout and whatever the cluster answers.
  pub wait_node_mode-Halts :
      (control n : Node) (l : List String) (want : String) (timeout : ℕ)
      → Halts e (wait_node_mode control n l want timeout)
  unfolding wait_node_mode
  wait_node_mode-Halts control n l want timeout = record {
    at = λ s.
        subst (λ r. r.0 ≢ diverged) (sym (clock_then _ e s))
          (poll_mode-Halts timeout control n l want timeout (e.now s.trace + timeout * second) s
            (omega arith));
  }
