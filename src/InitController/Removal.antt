-- ===== src/InitController/Removal.antt =====
-- What removeInitializer sends.
use init_agent.Base.{
  ℕ, suc, ◌≤◌, ◌≡◌, refl, true, false, Option, none, some, List, ◌∷◌, Text, text_eq, ◌==◌, length,
  arith,
}
use init_agent.Go.Slices.{
  contains, delete_func, delete_func-absent, delete_func-shorter, contains-delete_func,
  contains-delete_func_other,
}
use init_agent.Effect.{
  external, wrapped, failed_to_remove_initializer, Outcome, ok, err, patched, World,
}
use init_agent.Remote.{Remote, LogicalCluster}
use init_agent.InitController.{remove_initializer, after_patch}

abbrev pub without : Text → List Text → List Text
without initializer initializers = delete_func (λ i. text_eq i initializer) initializers

abbrev pub removal_outcome : {E : Type 0} → Option E → Outcome E (Unit {0})
removal_outcome none = ok tt
removal_outcome (some e) = err (wrapped failed_to_remove_initializer (external e))

shorter_ne : (m n : ℕ) → suc m ≤ n → (m == n) ≡ false
shorter_ne m n h = ground arith

self_eq : (n : ℕ) → (n == n) ≡ true
self_eq n = ground arith

module _ {Object E S Tpl : Type 0} (remote : Remote Object E S Tpl) (cluster initializer : Text)
    (lc : LogicalCluster) (w : World Object E S) where
  abbrev pub patch_answer : Option E × S
  patch_answer =
      remote.patch_status cluster lc
        (record lc { initializers = without initializer lc.initializers }) w.server

  -- A cluster without the initializer is left alone.
  pub remove_initializer-absent :
      contains lc.initializers initializer ≡ false
      → remove_initializer remote cluster initializer lc w ≡ (ok tt, w)
  unfolding remove_initializer
  remove_initializer-absent h =
      rw (delete_func-absent initializer lc.initializers h, self_eq (length lc.initializers))

  after_patch_lem :
      (failure : Option E) (v : World Object E S)
      → after_patch remote failure v ≡ (removal_outcome failure, v)
  unfolding after_patch
  after_patch_lem none v = refl
  after_patch_lem (some e) v = refl

  pub remove_initializer-present :
      contains lc.initializers initializer ≡ true
      → remove_initializer remote cluster initializer lc w ≡ (
        removal_outcome patch_answer.0,
        record {
          server = patch_answer.1;
          calls = patched (without initializer lc.initializers) patch_answer.0 ∷ w.calls;
        },
      )
  unfolding remove_initializer
  remove_initializer-present h =
      rw
        (shorter_ne (length (without initializer lc.initializers)) (length lc.initializers)
          (delete_func-shorter initializer lc.initializers h))
        (after_patch_lem patch_answer.0 sent)
    where
      sent : World Object E S
      sent = record {
        server = patch_answer.1;
        calls = patched (without initializer lc.initializers) patch_answer.0 ∷ w.calls;
      }

  -- A cluster with the initializer gets one request, with the list of initializers in which this
  -- one is absent and every other one is as before; the result is that of the request.
  pub remove_initializer_lem :
      contains lc.initializers initializer ≡ true
      → (remove_initializer remote cluster initializer lc w ≡ (
        removal_outcome patch_answer.0,
        record {
          server = patch_answer.1;
          calls = patched (without initializer lc.initializers) patch_answer.0 ∷ w.calls;
        },
      ))
        × (contains (without initializer lc.initializers) initializer ≡ false)
        × ((other : Text)
            → text_eq other initializer ≡ false
            → contains (without initializer lc.initializers) other ≡ contains lc.initializers other)
  remove_initializer_lem h = (
    remove_initializer-present h,
    contains-delete_func initializer lc.initializers,
    λ other ne. contains-delete_func_other initializer other lc.initializers ne,
  )
