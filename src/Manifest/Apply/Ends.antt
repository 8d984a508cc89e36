-- ===== src/Manifest/Apply/Ends.antt =====
-- Apply on a server that grants each creation, or refuses it because the object exists.
use init_agent.Base.{◌≡◌, refl, sym, subst, false, Option, none, some, List, [], ◌∷◌, Text}
use init_agent.Effect.{created, pure, request}
use init_agent.Effect.Ends.{Ends, Ends-pure, Ends-request, Ends->>=}
use init_agent.Remote.{Remote}
use init_agent.Manifest.{sort_objects_by_hierarchy}
use init_agent.Manifest.Apply.{unless_exists, apply_object, proceed, apply_objects, apply}
use init_agent.Manifest.Apply.Laws.{IsSettled}

module _ {Object E S Tpl : Type 0} (remote : Remote Object E S Tpl) (P : S → Type 0)
    (cluster : Text) where
  abbrev pub Creates : Type 0
  Creates =
      (obj : Object) (s : S)
      → P s
      → IsSettled remote (remote.create cluster obj s).0 × P (remote.create cluster obj s).1

  module _ (creates : Creates) where
    settled-none :
        (result : Option E) → IsSettled remote result → unless_exists remote result ≡ none
    settled-none none h = refl
    settled-none (some e) h = rw h

    Ends-apply_object : (obj : Object) → Ends P (λ r. r ≡ none) (apply_object remote cluster obj)
    unfolding apply_object
    Ends-apply_object obj =
        Ends->>= (request (remote.create cluster obj) (created obj))
          (λ r. pure (unless_exists remote r))
          (Ends-request (remote.create cluster obj) (created obj) (creates obj))
          (λ r h. Ends-pure (unless_exists remote r) (settled-none r h))

    Ends-apply_objects :
        (objs : List Object) → Ends P (λ b. b ≡ false) (apply_objects remote cluster objs)
    unfolding apply_objects
    Ends-apply_objects [] = Ends-pure false refl
    Ends-apply_objects (obj ∷ objs) =
        Ends->>= (apply_object remote cluster obj)
          (proceed remote (apply_objects remote cluster objs)) (Ends-apply_object obj)
          (λ r e.
            subst
              (λ q. Ends P (λ b. b ≡ false) (proceed remote (apply_objects remote cluster objs) q))
              (sym e) (unfold proceed in Ends-apply_objects objs))

    pub Ends-apply : (objs : List Object) → Ends P (λ b. b ≡ false) (apply remote cluster objs)
    unfolding apply
    Ends-apply objs = Ends-apply_objects (sort_objects_by_hierarchy remote objs)
