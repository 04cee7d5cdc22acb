-- ===== src/Utils/ProjectTargets/Listed.antt =====
-- `normalize_gitlab_project_targets`: the projects that a list of targets names.
use mathlib.Core.Path.{subst}
use open_review.Base.{
  ◌≡◌, inl, inr, refl, Bool, true, false, ◌||◌, List, [], ◌∷◌, ◌++◌, All, All-append, Any, arith,
  Bool-cases,
}
use open_review.Base.Codes.{Codes}
use open_review.Gitlab.Markers.{same_codes}
use open_review.Scenes.Mention.Skip.Readable.{same_codes_refl}
use open_review.Utils.ProjectTargets.{
  Url, Checked, valid, invalid, parse_gitlab_project_target, normalize_from, has, put_new, go_on,
  normalize_gitlab_project_targets,
}

same_codes_sym : (s t : Codes) → same_codes s t ≡ same_codes t s
same_codes_sym [] [] = refl
same_codes_sym [] (d ∷ t) = refl
same_codes_sym (c ∷ s) [] = refl
same_codes_sym (c ∷ s) (d ∷ t) = ground (arith, same_codes_sym s t)

module _ (urlparse : Codes → Url) (lower : Codes → Codes) where
  abbrev In : Codes → List Codes → Bool
  In = has urlparse lower

  abbrev put : Codes → List Codes → List Codes
  put = put_new urlparse lower

  -- no project twice
  abbrev pub NoRepeat : List Codes → Type 0
  NoRepeat [] = Unit
  NoRepeat (x ∷ xs) = (In x xs ≡ false) × NoRepeat xs

  has-snoc :
      (k : Codes) (xs : List Codes) (p : Codes) → In k (xs ++ p ∷ []) ≡ In k xs || same_codes p k
  has-snoc k [] p = ground arith
  has-snoc k (x ∷ xs) p = ground (arith, has-snoc k xs p)

  NoRepeat-snoc :
      (xs : List Codes) (p : Codes) → NoRepeat xs → In p xs ≡ false → NoRepeat (xs ++ p ∷ [])
  NoRepeat-snoc [] p h n = (refl, tt)
  NoRepeat-snoc (x ∷ xs) p h n = (
    ground (arith, has-snoc x xs p, same_codes_sym x p, h.0),
    NoRepeat-snoc xs p h.1 (ground arith),
  )

  put-NoRepeat : (p : Codes) (xs : List Codes) → NoRepeat xs → NoRepeat (put p xs)
  put-NoRepeat p xs h = elim (Bool-cases (In p xs)) [
    | inl e ↦ rw e h
    | inr e ↦ rw e (NoRepeat-snoc xs p h e)
  ]

  put-has : (p : Codes) (xs : List Codes) → In p (put p xs) ≡ true
  put-has p xs = elim (Bool-cases (In p xs)) [
    | inl e ↦ rw e e
    | inr e ↦ rw e (ground (arith, has-snoc p xs p, same_codes_refl p))
  ]

  put-keeps : (k p : Codes) (xs : List Codes) → In k xs ≡ true → In k (put p xs) ≡ true
  put-keeps k p xs h = elim (Bool-cases (In p xs)) [
    | inl e ↦ rw e h
    | inr e ↦ rw e (ground (arith, has-snoc k xs p))
  ]

  put-All : (Q : Codes → Type 0) (p : Codes) (xs : List Codes) → All Q xs → Q p → All Q (put p xs)
  put-All Q p xs h q = elim (Bool-cases (In p xs)) [
    | inl e ↦ rw e h
    | inr e ↦ rw e (All-append Q xs (p ∷ []) h (q, tt))
  ]

  module _ (api_url external_url : Codes) where
    abbrev parse : Codes → Checked Codes
    parse item = parse_gitlab_project_target urlparse lower item api_url external_url

    -- the project of a target is in the list
    abbrev pub IsListed : List Codes → Codes → Type 0
    IsListed out item = (p : Codes) × (parse item ≡ valid p) × (In p out ≡ true)

    went_on :
        (c : Checked Codes) (acc : List Codes) (rest : List Codes → Checked (List Codes))
        (out : List Codes)
        → go_on urlparse lower c acc rest ≡ valid out
        → (p : Codes) × (c ≡ valid p) × (rest (put p acc) ≡ valid out)
    went_on (valid p) acc rest out h = (p, refl, h)
    went_on (invalid text) acc rest out h = cc

    ended : (acc out : List Codes) → valid acc ≡ valid out → acc ≡ out
    ended acc out h = cc

    from-keeps :
        (acc items out : List Codes) (k : Codes)
        → normalize_from urlparse lower api_url external_url acc items ≡ valid out
        → In k acc ≡ true
        → In k out ≡ true
    unfolding normalize_from
    from-keeps acc [] out k h m = subst (λ l. In k l ≡ true) (ended acc out h) m
    from-keeps acc (item ∷ items) out k h m =
        let (p, e, more) = went_on (parse item) acc _ out h in
        from-keeps (put p acc) items out k more (put-keeps k p acc m)

    from-NoRepeat :
        (acc items out : List Codes)
        → normalize_from urlparse lower api_url external_url acc items ≡ valid out
        → NoRepeat acc
        → NoRepeat out
    unfolding normalize_from
    from-NoRepeat acc [] out h n = subst NoRepeat (ended acc out h) n
    from-NoRepeat acc (item ∷ items) out h n =
        let (p, e, more) = went_on (parse item) acc _ out h in
        from-NoRepeat (put p acc) items out more (put-NoRepeat p acc n)

    from-IsListed :
        (acc items out : List Codes)
        → normalize_from urlparse lower api_url external_url acc items ≡ valid out
        → All (IsListed out) items
    unfolding normalize_from
    from-IsListed acc [] out h = tt
    from-IsListed acc (item ∷ items) out h =
        let (p, e, more) = went_on (parse item) acc _ out h in
        (
          (p, e, from-keeps (put p acc) items out p more (put-has p acc)),
          from-IsListed (put p acc) items out more,
        )

    -- the project is that of a target
    abbrev pub IsNamedBy : List Codes → Codes → Type 0
    IsNamedBy items p = Any (λ item. parse item ≡ valid p) items

    from-IsNamedBy :
        (all acc items out : List Codes)
        → normalize_from urlparse lower api_url external_url acc items ≡ valid out
        → All (λ item. (p : Codes) → parse item ≡ valid p → IsNamedBy all p) items
        → All (IsNamedBy all) acc
        → All (IsNamedBy all) out
    unfolding normalize_from
    from-IsNamedBy all acc [] out h f n = subst (All (IsNamedBy all)) (ended acc out h) n
    from-IsNamedBy all acc (item ∷ items) out h f n =
        let (p, e, more) = went_on (parse item) acc _ out h in
        from-IsNamedBy all (put p acc) items out more f.1
          (put-All (IsNamedBy all) p acc n (f.0 p e))

    named_later :
        (x : Codes) (xs items : List Codes)
        → All (λ item. (p : Codes) → parse item ≡ valid p → IsNamedBy xs p) items
        → All (λ item. (p : Codes) → parse item ≡ valid p → IsNamedBy (x ∷ xs) p) items
    named_later x xs [] h = tt
    named_later x xs (item ∷ items) h = ((λ p e. inr (h.0 p e)), named_later x xs items h.1)

    all_named :
        (items : List Codes)
        → All (λ item. (p : Codes) → parse item ≡ valid p → IsNamedBy items p) items
    all_named [] = tt
    all_named (item ∷ items) = ((λ p e. inl e), named_later item items items (all_named items))

    -- A list of targets that is accepted comes out as the projects that its targets name, each once: no project stands in it twice, every target is valid and its project stands in it, and every project in it is that of a target.
    pub normalize-IsListed :
        (values out : List Codes)
        → normalize_gitlab_project_targets urlparse lower values api_url external_url ≡ valid out
        → NoRepeat out × All (IsListed out) values × All (IsNamedBy values) out
    unfolding normalize_gitlab_project_targets
    normalize-IsListed values out h = (
      from-NoRepeat [] values out h tt,
      from-IsListed [] values out h,
      from-IsNamedBy values [] values out h (all_named values) tt,
    )
