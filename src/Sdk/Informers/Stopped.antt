-- ===== src/Sdk/Informers/Stopped.antt =====
-- What Shutdown stops, and when its wait is over.
use init_agent.Base.{ℕ, suc, ◌-◌, ◌≤◌, ◌≡◌, refl, ◌∙◌, ◌↔◌, true, List, [], ◌∷◌, arith}
use init_agent.Go.Maps.{lookup}
use init_agent.Sdk.Informers.{
  SharedInformerFactory, start, shutdown, shutdown_returns, run_returned, informer_for,
}
use init_agent.Sdk.Informers.History.{
  Call, started, shut_down, returned, asked, step, after, informer_for-keeps,
}

-- How many goroutines end among the calls.
unfoldable pub returns : {C I D : Type 0} → List (Call C I D) → ℕ
returns [] = 0
returns (returned ∷ calls) = suc (returns calls)
returns (started ∷ calls) = returns calls
returns (shut_down ∷ calls) = returns calls
returns (asked type new ∷ calls) = returns calls

-- What a call leaves of the wait group of a factory that shuts down.
abbrev left : {C I D : Type 0} → Call C I D → ℕ → ℕ
left started n = n
left shut_down n = n
left returned n = n - 1
left (asked type new) n = n

module _ {C I D W X : Type 0} where
  step-down :
      (call : Call C I D) (f : SharedInformerFactory C I D W X)
      → f.shutting_down ≡ true
      → ((step call f).runs ≡ f.runs) × ((step call f).shutting_down ≡ true)
  step-down started f h = unfold step start in (simp h, simp h)
  step-down shut_down f h = unfold step shutdown in (refl, refl)
  step-down returned f h = unfold step run_returned in ground arith
  step-down (asked type new) f h =
      let (a, b, c, d) = informer_for-keeps (lookup type f.informers) type new f in
      unfold step informer_for in (a, d ∙ h)

  after-down :
      (calls : List (Call C I D)) (f : SharedInformerFactory C I D W X)
      → f.shutting_down ≡ true
      → (after calls f).runs ≡ f.runs
  unfolding after
  after-down [] f h = refl
  after-down (call ∷ calls) f h =
      let (same, down) = step-down call f h in after-down calls (step call f) down ∙ same

  step-wg :
      (call : Call C I D) (f : SharedInformerFactory C I D W X)
      → f.shutting_down ≡ true
      → (step call f).wg ≡ left call f.wg
  step-wg started f h = unfold step start in simp h
  step-wg shut_down f h = unfold step shutdown in refl
  step-wg returned f h = unfold step run_returned in ground arith
  step-wg (asked type new) f h =
      let (a, b, c, d) = informer_for-keeps (lookup type f.informers) type new f in
      unfold step informer_for in c

  after-wg :
      (calls : List (Call C I D)) (f : SharedInformerFactory C I D W X)
      → f.shutting_down ≡ true
      → (after calls f).wg ≡ f.wg - returns calls
  unfolding after returns
  after-wg [] f h = omega arith
  after-wg (started ∷ calls) f h =
      omega (arith, after-wg calls (step started f) (step-down started f h).1, step-wg started f h)
  after-wg (shut_down ∷ calls) f h =
      omega (
        arith,
        after-wg calls (step shut_down f) (step-down shut_down f h).1,
        step-wg shut_down f h,
      )
  after-wg (returned ∷ calls) f h =
      omega
        (arith, after-wg calls (step returned f) (step-down returned f h).1, step-wg returned f h)
  after-wg (asked type new ∷ calls) f h = omega (
    arith,
    after-wg calls (step (asked type new) f) (step-down (asked type new) f h).1,
    step-wg (asked type new) f h,
  )

  shutdown_returns_iff :
      (f : SharedInformerFactory C I D W X) → (shutdown_returns f ≡ true) ↔ (f.wg ≤ 0)
  unfolding shutdown_returns
  shutdown_returns_iff f = ground arith

  -- Once Shutdown was called, whatever calls follow: no goroutine is started any more, and the wait
  -- of Shutdown is over if and only if at least as many goroutines have ended since as the
  -- wait group counted.
  pub shutdown-returns :
      (calls : List (Call C I D)) (f : SharedInformerFactory C I D W X)
      → let f' = after calls (shutdown f) in
        (f'.runs ≡ f.runs) × ((shutdown_returns f' ≡ true) ↔ (f.wg ≤ returns calls))
  shutdown-returns calls f =
      let remaining = after-wg calls (shutdown f) (unfold shutdown in refl) in
      let iff = shutdown_returns_iff (after calls (shutdown f)) in
      (
        unfold shutdown in after-down calls (shutdown f) refl,
        unfold shutdown in
            (
              λ over. omega (arith, remaining, iff.0 over),
              λ enough. iff.1 (omega (arith, remaining)),
            ),
      )
