-- ===== src/Manifest/Yaml.antt =====
-- internal/manifest/yaml.go: ParseYAML.
use init_agent.Base.{
  ◌≡◌, Bool, not, Option, none, some, select, append-nil, append_assoc, arith, List, [], ◌∷◌, ◌++◌,
  Text, ◌==◌, if◌then◌else◌,
}
use init_agent.Effect.{Outcome, ok, err, external, wrapped, failed_to_decode_yaml}
use init_agent.Remote.{Remote, Decoded, document, broken}

module _ {Object E S Tpl : Type 0} (remote : Remote Object E S Tpl) where
  -- The `for` loop: the list is what Decode returns, and its end is io.EOF.
  parse_loop : List Object → List (Decoded Object E) → Outcome E (List Object)
  parse_loop results [] = ok results
  parse_loop results (broken e ∷ rest) =
      if remote.is_eof e then ok results else err (wrapped failed_to_decode_yaml (external e))
  parse_loop results (document obj ∷ rest) =
      parse_loop (if remote.len obj == 0 then results else results ++ obj ∷ []) rest

  unfoldable pub parse_yaml : Text → Outcome E (List Object)
  unfolding parse_loop
  parse_yaml text = parse_loop [] (remote.decode text)

  -- The documents before the first error, and that error unless it is io.EOF.
  unfoldable pub documents : List (Decoded Object E) → List Object
  documents [] = []
  documents (broken e ∷ rest) = []
  documents (document obj ∷ rest) = obj ∷ documents rest

  unfoldable pub first_error : List (Decoded Object E) → Option E
  first_error [] = none
  first_error (broken e ∷ rest) = if remote.is_eof e then none else some e
  first_error (document obj ∷ rest) = first_error rest

  abbrev pub is_filled : Object → Bool
  is_filled obj = not (remote.len obj == 0)

  -- What ParseYAML is to return.
  abbrev pub parsed : List Object → Option E → Outcome E (List Object)
  parsed objs none = ok objs
  parsed objs (some e) = err (wrapped failed_to_decode_yaml (external e))

  parse_loop_lem :
      (results : List Object) (l : List (Decoded Object E))
      → parse_loop results l ≡ parsed (results ++ select is_filled (documents l)) (first_error l)
  unfolding parse_loop documents first_error select
  parse_loop_lem results [] = ground (arith, append-nil results)
  parse_loop_lem results (broken e ∷ rest) = ground (arith, append-nil results)
  parse_loop_lem results (document obj ∷ rest) = ground (
    arith,
    parse_loop_lem results rest,
    parse_loop_lem (results ++ obj ∷ []) rest,
    append_assoc results (obj ∷ []) (select is_filled (documents rest)),
  )

  -- ParseYAML returns the non-empty documents of the text in their order, or, if a document before
  -- the end of the input cannot be decoded, no objects and that error.
  pub parse_yaml_lem :
      (text : Text)
      → parse_yaml text
        ≡ parsed
            (select is_filled (documents (remote.decode text)))
            (first_error (remote.decode text))
  unfolding parse_yaml
  parse_yaml_lem text = parse_loop_lem [] (remote.decode text)
