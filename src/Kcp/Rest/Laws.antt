-- ===== src/Kcp/Rest/Laws.antt =====
-- How stripping and retargeting a host interact.
use init_agent.Base.{
  ℕ, ◌≤◌, ◌≡◌, refl, true, false, Option, none, some, ◌⊎◌, inl, inr, [], ◌∷◌, ◌++◌, append_assoc,
  arith, Text, codes, length, length-append,
}
use init_agent.Go.Strings.{
  is_empty, cut_prefix, trim_right, trim_right_idem, trim_right-snoc, cut_prefix-append,
}
use init_agent.Kcp.Rest.{
  RestConfig, slash, clusters, has_slash, is_cluster_segment, cluster_finder_at,
  replace_all_clusters, strip_cluster, retarget_rest_config, cluster_config,
}

-- A name that can stand as one segment of a path, as logical cluster names and paths do.
pub record IsSegment (name : Text) : Type 0 where
  pub filled : is_empty name ≡ false
  pub whole : has_slash name ≡ false

has_slash-append_right : (u v : Text) → has_slash v ≡ true → has_slash (u ++ v) ≡ true
unfolding has_slash
has_slash-append_right [] v h = h
has_slash-append_right (c ∷ u) v h = ground (arith, has_slash-append_right u v h)

-- What a prefix no longer than `u` leaves of a text keeps what follows `u`.
cut_prefix-has_slash :
    (p u v : Text) {r : Text}
    → length p ≤ length u
    → has_slash v ≡ true
    → cut_prefix p (u ++ v) ≡ some r
    → has_slash r ≡ true
unfolding cut_prefix
cut_prefix-has_slash [] u v h k e = ground (arith, has_slash-append_right u v k)
cut_prefix-has_slash (c ∷ p) [] v h k e = absurd (omega arith)
cut_prefix-has_slash (c ∷ p) (d ∷ u) v {r} h k e =
    cut_prefix-has_slash p u v (omega arith) k (ground arith)

no_segment :
    (o : Option Text)
    → ((r : Text) → o ≡ some r → has_slash r ≡ true)
    → is_cluster_segment o ≡ false
no_segment none h = refl
no_segment (some r) h = ground (arith, h r refl)

not-cluster_finder_at :
    (u v : Text)
    → length clusters ≤ length u
    → has_slash v ≡ true
    → cluster_finder_at (u ++ v) ≡ false
unfolding cluster_finder_at
not-cluster_finder_at u v h k =
    no_segment (cut_prefix clusters (u ++ v)) (λ r e. cut_prefix-has_slash clusters u v h k e)

not-cluster_finder_at_base :
    (c : ℕ) (base name : Text) → cluster_finder_at (c ∷ (base ++ (clusters ++ name))) ≡ false
unfolding has_slash
not-cluster_finder_at_base c base name =
    rw (append_assoc (c ∷ base) (codes "/clusters") (slash ∷ name)) at (
      not-cluster_finder_at ((c ∷ base) ++ codes "/clusters") (slash ∷ name)
        (omega (arith, length-append (c ∷ base) (codes "/clusters"))) refl)

-- The leftmost match is the last segment, whatever stands before it.
replace_all_clusters-append :
    (base name : Text) → IsSegment name → replace_all_clusters (base ++ (clusters ++ name)) ≡ base
unfolding replace_all_clusters
replace_all_clusters-append [] name v = ground (arith, cut_prefix-append clusters name)
replace_all_clusters-append (c ∷ base) name v =
    ground (arith, replace_all_clusters-append base name v, not-cluster_finder_at_base c base name)

-- With a slash at the end nothing matches.
cut_prefix-ends :
    (p s : Text) {r : Text}
    → cut_prefix p (s ++ slash ∷ []) ≡ some r
    → (is_empty r ≡ true) ⊎ (has_slash r ≡ true)
unfolding cut_prefix has_slash
cut_prefix-ends [] s e = inr (ground (arith, has_slash-append_right s (slash ∷ [])))
cut_prefix-ends (c ∷ []) [] e = inl (ground arith)
cut_prefix-ends (c ∷ d ∷ p) [] e = ground arith
cut_prefix-ends (c ∷ p) (d ∷ s) e = cut_prefix-ends p s (ground arith)

not_segment :
    (o : Option Text)
    → ((r : Text) → o ≡ some r → (is_empty r ≡ true) ⊎ (has_slash r ≡ true))
    → is_cluster_segment o ≡ false
not_segment none h = refl
not_segment (some r) h = ground (arith, h r refl)

replace_all_clusters-slash : (s : Text) → replace_all_clusters (s ++ slash ∷ []) ≡ s ++ slash ∷ []
unfolding replace_all_clusters
replace_all_clusters-slash [] = refl
replace_all_clusters-slash (c ∷ s) = ground (
  arith,
  replace_all_clusters-slash s,
  not_segment (cut_prefix clusters (c ∷ (s ++ slash ∷ [])))
      (λ r e. cut_prefix-ends clusters (c ∷ s) e),
)

module _ {R : Type 0} (cfg : RestConfig R) where
  -- Stripping undoes the retargeting to a logical cluster: from a configuration of any logical
  -- cluster, whose name is not empty and has no slash, it returns the host before the path, less
  -- its trailing slashes, and the other fields.
  pub strip_cluster-cluster_config :
      (name : Text)
      → IsSegment name
      → strip_cluster (cluster_config cfg name) ≡ record cfg { host = trim_right slash cfg.host }
  unfolding strip_cluster cluster_config
  strip_cluster-cluster_config name v = rw (replace_all_clusters-append cfg.host name v)

  -- Retargeting forgets the logical cluster that the configuration pointed at before: retargeting
  -- to one valid name and then to another is retargeting to the second.
  retarget_rest_config-retarget_rest_config :
      (first second : Text)
      → IsSegment first
      → retarget_rest_config (retarget_rest_config cfg first) second
        ≡ retarget_rest_config cfg second
  unfolding retarget_rest_config
  retarget_rest_config-retarget_rest_config first second v =
      rw (replace_all_clusters-append (strip_cluster cfg).host first v, trim_right_idem)

  -- StripCluster and RetargetRestConfig forget the logical cluster that a configuration was given,
  -- if its name is not empty and has no slash: stripping returns the host before the path, less
  -- its trailing slashes, and the other fields; and retargeting from one name to another is
  -- retargeting to the second.
  pub cluster_forgotten :
      (first second : Text)
      → IsSegment first
      → (strip_cluster (cluster_config cfg first) ≡ record cfg { host = trim_right slash cfg.host })
        × (retarget_rest_config (retarget_rest_config cfg first) second
            ≡ retarget_rest_config cfg second)
  cluster_forgotten first second v = (
    strip_cluster-cluster_config first v,
    retarget_rest_config-retarget_rest_config first second v,
  )

  -- A host that ends in a slash keeps its logical cluster: only the slashes go.
  pub strip_cluster-trailing_slash :
      (host : Text)
      → strip_cluster (record cfg { host = host ++ slash ∷ [] })
        ≡ record cfg { host = trim_right slash host }
  unfolding strip_cluster
  strip_cluster-trailing_slash host =
      rw (replace_all_clusters-slash host, trim_right-snoc slash host)
