-- ===== src/Authorize/Accepted.antt =====
-- internal/oauth/authorize.go: the parts of an authorization request.
use certus.Common.{
  string_key, ◌+◌, String, ◌≡◌, refl, sym, ap, ◌∙◌, subst, ◌≢◌, ◌⊎◌, inl, inr, true, false, not,
  ◌&&◌, ◌||◌, none, some, List, [], ◌∷◌, arith, ◌==◌, eq_iff, ltb, eqb, ok, Option-cases, length,
  All, All-mono, reject, reject-ok_iff, call-ok, value_of_ok, Unique, lookup, fields,
}
use certus.Client.Policy.{contains}
use certus.Authorize.Request.{
  Values, prompt_values, prompt_of, parse_prompt, prompt_parameter_repeated, prompt_empty,
  prompt_none_combined,
}

abbrev pub IsPrompt : String → Type 0
IsPrompt v = (v ≡ "none") ⊎ ((v ≡ "login") ⊎ (v ≡ "consent"))

prompt_values-cons :
    (seen : List String) (v : String) (vs all_seen : List String)
    → prompt_values seen (v ∷ vs) ≡ ok all_seen
    → IsPrompt v × (contains seen v ≡ false) × (prompt_values (v ∷ seen) vs ≡ ok all_seen)
unfolding prompt_values
prompt_values-cons seen v vs all_seen h =
    ground (arith, h, eq_iff v "none", eq_iff v "login", eq_iff v "consent")

abbrev IsUnseen : List String → String → Type 0
IsUnseen seen v = contains seen v ≡ false

-- The loop of parsePrompt ends only on known values, no two of them the same.
prompt_values-ok :
    (seen values all_seen : List String)
    → prompt_values seen values ≡ ok all_seen
    → All IsPrompt values
      × Unique ◌==◌ values
      × All (IsUnseen seen) values
      × (length all_seen ≡ length seen + length values)
      × ((x : String) → contains all_seen x ≡ (contains seen x || contains values x))
unfolding prompt_values
prompt_values-ok seen [] all_seen h =
    let same : seen ≡ all_seen = value_of_ok h in
    (tt, tt, tt, ground (arith, ap length same), λ x. ground (arith, ap (λ z. contains z x) same))
prompt_values-ok seen (v ∷ vs) all_seen h =
    let (known, fresh, rest) = prompt_values-cons seen v vs all_seen h in
    let (knowns, uniques, unseen, size, members) = prompt_values-ok (v ∷ seen) vs all_seen rest in
    (
      (known, knowns),
      (
        All-mono (IsUnseen (v ∷ seen)) (λ y. v == y ≡ false) vs (λ y e. ground (arith, e)) unseen,
        uniques,
      ),
      (fresh, All-mono (IsUnseen (v ∷ seen)) (IsUnseen seen) vs (λ y e. ground (arith, e)) unseen),
      omega (arith, size),
      λ x. ground (arith, members x),
    )

length-zero : (xs : List String) → length xs ≡ 0 → xs ≡ []
length-zero [] h = refl
length-zero (x ∷ xs) h = ground arith

prompt_of-ok :
    (raw prompt : List String)
    → prompt_of raw ≡ ok prompt
    → (text : String) × (raw ≡ text ∷ [])
      × (prompt ≡ fields text)
      × (prompt ≢ [])
      × All IsPrompt prompt
      × Unique ◌==◌ prompt
      × (contains prompt "none" ≡ true → length prompt ≡ 1)
unfolding prompt_of
prompt_of-ok [] prompt h = ground arith
prompt_of-ok (text ∷ others) prompt h =
    let (u, once, a) = call-ok (reject (ltb 0 (length others)) prompt_parameter_repeated) _ h in
    let (v, some_word, b) = call-ok (reject (eqb (length (fields text)) 0) prompt_empty) _ a in
    let (seen, loop, c) = call-ok (prompt_values [] (fields text)) _ b in
    let (w, single, d) =
      call-ok (reject (contains seen "none" && not (eqb (length seen) 1)) prompt_none_combined) _
        c in
    let same : fields text ≡ prompt = value_of_ok d in
    let (knowns, uniques, unseen, size, members) = prompt_values-ok [] (fields text) seen loop in
    let one = (reject-ok_iff (ltb 0 (length others)) prompt_parameter_repeated).0 once in
    let word = (reject-ok_iff (eqb (length (fields text)) 0) prompt_empty).0 some_word in
    let alone =
      (reject-ok_iff (contains seen "none" && not (eqb (length seen) 1)) prompt_none_combined).0
        single in
    (
      text,
      ap (λ z. text ∷ z) (length-zero others (ground (arith, one))),
      sym same,
      λ e.
          let none_left : length (fields text) ≡ 0 = ap length (same ∙ e) in
          ground (arith, word, none_left),
      subst (All IsPrompt) same knowns,
      subst (Unique ◌==◌) same uniques,
      subst (λ z. contains z "none" ≡ true → length z ≡ 1) same
          (λ e. ground (arith, alone, e, members "none", size)),
    )

-- parsePrompt answers no values if the parameter is missing. Otherwise the parameter was given once,
-- and the values are its words: at least one, each of them none, login or consent, no two of them the
-- same, and none only by itself.
parse_prompt_ok :
    (values : Values) (prompt : List String)
    → parse_prompt values ≡ ok prompt
    → ((lookup "prompt" values ≡ none) × (prompt ≡ []))
      ⊎ ((text : String) × (lookup "prompt" values ≡ some (text ∷ []))
          × (prompt ≡ fields text)
          × (prompt ≢ [])
          × All IsPrompt prompt
          × Unique ◌==◌ prompt
          × (contains prompt "none" ≡ true → length prompt ≡ 1))
unfolding parse_prompt
parse_prompt_ok values prompt h = elim (Option-cases (lookup "prompt" values)) [
  | inl e ↦ inl (e, sym (value_of_ok (rw (e, parse_prompt) at h)))
  | inr (raw, e) ↦
      let (text, single, words, there, known, unique, alone) =
        prompt_of-ok raw prompt (rw (e, parse_prompt) at h) in
      inr (text, e ∙ ap some single, words, there, known, unique, alone)
]
