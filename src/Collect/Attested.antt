-- ===== src/Collect/Attested.antt =====
-- internal/collect/engine.go: what a projection takes from its source, and what it attests of it.
use pepin.Prelude.{
  ◌≡◌, refl, ◌∙◌, String, Bool, true, false, not, ◌&&◌, ◌||◌, Option, none, some, [], ◌∷◌, arith,
  if◌then◌else◌, ◌==◌, Dict, lookup, lookup-insert, lookup_of_keys, NoRepeat, keys, inl, inr,
  Bool-cases, Option-cases,
}
use pepin.Model.Resource.{Value, Attestation}
use pepin.Model.Json.{is_null}
use pepin.Collect.Paths.{lookup_coalesce, lookup_coalesce-absent, source_present}
use pepin.Collect.Transforms.{Go, Transform}
use pepin.Collect.Apply.{apply_transform_attested}
use pepin.Collect.Projection.{
  Source, Projected, attest_path, keep, project_one, project_from, no_projection, project_attested,
}

abbrev pub is_there {ℓ} : {V : Type ℓ} → Option V → Bool
is_there none = false
is_there (some v) = true

abbrev pub observation_of : Option Attestation → Option Bool
observation_of none = none
observation_of (some a) = some a.observed

-- The first value, or the second where there is none.
abbrev or_else : Option Bool → Option Bool → Option Bool
or_else none o = o
or_else (some b) o = some b

module _ (go : Go) (item : Value) (transforms : Dict Transform) (src : Source) where
  -- The attribute has a path in the mapping that the source has.
  abbrev pub has_source : String → Dict String → Bool
  has_source attr [] = false
  has_source attr ((a, path) ∷ mapping) =
      attr == a && source_present item path || has_source attr mapping

  keep-attrs :
      (k attr path : String) (present : Bool) (w : Value) (derived : Bool) (out : Projected)
      → is_there (lookup k (keep src attr path present w derived out).attrs)
        ≡ (is_there (lookup k out.attrs) || k == attr && not (is_null w))
  keep-attrs k attr path present w derived out = ground (arith, lookup-insert k attr w out.attrs)

  project_one-attrs :
      (k attr path : String) (out : Projected)
      → is_there (lookup k (project_one go item transforms src attr path out).attrs) ≡ true
      → (is_there (lookup k out.attrs) || k == attr && source_present item path) ≡ true
  project_one-attrs k attr path out h = elim (Option-cases (lookup attr transforms)) [
    | inl plain ↦ ground (
      arith,
      h,
      plain,
      lookup_coalesce-absent item path,
      keep-attrs k attr path (source_present item path) (lookup_coalesce item path) false out,
    )
    | inr (t, named) ↦
        let r = apply_transform_attested go t (lookup_coalesce item path) in
        ground (
          arith,
          h,
          named,
          lookup_coalesce-absent item path,
          keep-attrs k attr path (source_present item path) r.0 r.1 out,
        )
  ]

  project_from-attrs :
      (k : String) (mapping : Dict String) (out : Projected)
      → is_there (lookup k (project_from go item transforms src mapping out).attrs) ≡ true
      → (is_there (lookup k out.attrs) || has_source k mapping) ≡ true
  unfolding project_from
  project_from-attrs k [] out h = ground arith
  project_from-attrs k ((attr, path) ∷ mapping) out h = ground (
    arith,
    project_one-attrs k attr path out,
    project_from-attrs k mapping (project_one go item transforms src attr path out) h,
  )

  -- A projection never fabricates a datum: whatever the transforms of the mapping, each attribute
  -- that it projects has a path in the mapping that exists in the source.
  pub project_attested-has_source :
      (k : String) (mapping : Dict String)
      → is_there (lookup k (project_attested go item mapping transforms src).attrs) ≡ true
      → has_source k mapping ≡ true
  unfolding project_attested
  project_attested-has_source k mapping h =
      ground (arith, project_from-attrs k mapping no_projection h)

  abbrev pub presence_of : Option String → Option Bool
  presence_of none = none
  presence_of (some path) = some (source_present item path)

  attest_path-observation :
      (k attr path : String) (observed derived : Bool) (prov : Dict Attestation)
      → (src.origin == "") ≡ false
      → observation_of (lookup k (attest_path src attr path observed derived prov))
        ≡ (if k == attr then some observed else observation_of (lookup k prov))
  attest_path-observation k attr path observed derived prov h = ground (
    arith,
    h,
    lookup-insert k attr
        (record {
          origin = src.origin;
          source = src.ref;
          path = path;
          observed = observed;
          derived = derived;
        })
        prov,
  )

  keep-prov :
      (k attr path : String) (present : Bool) (w : Value) (derived : Bool) (out : Projected)
      → (src.origin == "") ≡ false
      → observation_of (lookup k (keep src attr path present w derived out).prov)
        ≡ (if k == attr then some present else observation_of (lookup k out.prov))
  keep-prov k attr path present w derived out h = elim (Bool-cases (is_null w)) [
    | inl e ↦ rw e (attest_path-observation k attr path present false out.prov h)
    | inr e ↦ rw e (attest_path-observation k attr path present derived out.prov h)
  ]

  project_one-prov :
      (k attr path : String) (out : Projected)
      → (src.origin == "") ≡ false
      → observation_of (lookup k (project_one go item transforms src attr path out).prov) ≡ (
          if k == attr then some (source_present item path) else observation_of (lookup k out.prov))
  project_one-prov k attr path out h = elim (Option-cases (lookup attr transforms)) [
    | inl plain ↦ ground (
      arith,
      plain,
      keep-prov k attr path (source_present item path) (lookup_coalesce item path) false out h,
    )
    | inr (t, named) ↦
        let r = apply_transform_attested go t (lookup_coalesce item path) in
        ground (
          arith,
          named,
          attest_path-observation k attr path false false out.prov h,
          keep-prov k attr path (source_present item path) r.0 r.1 out h,
        )
  ]

  project_from-prov :
      (k : String) (mapping : Dict String) (out : Projected)
      → (src.origin == "") ≡ false
      → NoRepeat (keys mapping)
      → observation_of (lookup k (project_from go item transforms src mapping out).prov)
        ≡ or_else (presence_of (lookup k mapping)) (observation_of (lookup k out.prov))
  unfolding project_from
  project_from-prov k [] out h d = refl
  project_from-prov k ((attr, path) ∷ mapping) out h d =
      project_from-prov k mapping (project_one go item transforms src attr path out) h d.1
      ∙ ground (arith, d.0, project_one-prov k attr path out h, lookup_of_keys attr mapping)

  -- The provenance says what was looked for, and no more: with a source that has an origin, an
  -- attribute has an attestation exactly when the mapping has a path for it, and the attestation says
  -- that it was observed exactly when the source has the path.
  pub project_attested-observed :
      (k : String) (mapping : Dict String)
      → (src.origin == "") ≡ false
      → NoRepeat (keys mapping)
      → observation_of (lookup k (project_attested go item mapping transforms src).prov)
        ≡ presence_of (lookup k mapping)
  unfolding project_attested
  project_attested-observed k mapping h d =
      project_from-prov k mapping no_projection h d ∙ ground arith
