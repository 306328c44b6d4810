-- ===== src/Jobs/Overrides/Apply/Floor.antt =====
-- Validated overrides, and the profile that they are applied to.
use imagin.Prelude.{
  sym, eq_iff, String, some, str_eq, List, ap, ◌≡◌, refl, inl, inr, Bool-cases, ◌∙◌,
}
use imagin.Prelude.Parts.{join}
use imagin.Prelude.Strip.{strip}
use imagin.Prelude.Json.{Json, Fields, string, end, field, get}
use imagin.Prelude.Python.{Python}
use imagin.Jobs.Profiles.{ComfyProfile}
use imagin.Jobs.Overrides.{OverrideAllowlists, string_fields}
use imagin.Jobs.Overrides.Checked.{
  Listed, Entry, Entries, listed, steps, cfg_scale, negative_prompt,
}
use imagin.Jobs.Overrides.Apply.{
  set_text, set_field, and_then, replace_fields, pop, add_last, merge_terms, apply_at,
  apply_overrides,
}
use mathlib.Core.Path.{subst}

-- Every profile can take the value.
abbrev IsSettable : String → Json → Type 0
IsSettable k v = (p : ComfyProfile) → (p' : ComfyProfile) × (set_field k v p ≡ some p')

abbrev AllSettable : Fields → Type 0
AllSettable end = Unit
AllSettable (field k v rest) = IsSettable k v × AllSettable rest

AllSettable-pop : (key : String) (d : Fields) → AllSettable d → AllSettable (pop key d)
unfolding pop
AllSettable-pop key end h = tt
AllSettable-pop key (field k v rest) h = elim (Bool-cases (str_eq k key)) [
  | inl e ↦ rw e (AllSettable-pop key rest h.1)
  | inr e ↦ rw e (h.0, AllSettable-pop key rest h.1)
]

-- The last value that is set is the negative prompt.
replace-add_last :
    (s : String) (d : Fields) (p : ComfyProfile)
    → AllSettable d
    → (p' : ComfyProfile) × (replace_fields (add_last "negative_prompt" (string s) d) p ≡ some p')
      × (p'.negative_prompt ≡ s)
unfolding replace_fields add_last set_field set_text
replace-add_last s end p h = (record p { negative_prompt = s }, refl, refl)
replace-add_last s (field k v rest) p h =
    let (p1, e) = h.0 p in
    let (p', f, n) = replace-add_last s rest p1 h.1 in
    (
      p',
      ap (λ o. and_then o (replace_fields (add_last "negative_prompt" (string s) rest))) e ∙ f,
      n,
    )

join_empty : (s : String) → join s "" ≡ s
unfolding join
join_empty Prim.Native.String.[] = refl
join_empty (Prim.Native.String.◌∷◌ c s) = ap (λ t. Prim.Native.String.◌∷◌ c t) (join_empty s)

-- The baseline stands in front.
merge_terms-join :
    (baseline caller : String)
    → (rest : String) × (merge_terms baseline caller ≡ join baseline rest)
unfolding merge_terms join
merge_terms-join baseline caller = elim (Bool-cases (str_eq caller "")) [
  | inl e ↦ ("", rw e (sym (join_empty baseline)))
  | inr e ↦ elim (Bool-cases (str_eq baseline "")) [
    | inl b ↦ (caller, rw (e, b) (ap (λ t. join t caller) (sym ((eq_iff baseline "").0 b))))
    | inr b ↦ (join ", " caller, rw (e, b) refl)
  ]
]

module _ (py : Python) (a : OverrideAllowlists) where
  Listed-IsSettable :
      (key text : String) (l : List String)
      → Listed key l (string_fields a)
      → IsSettable key (string text)
  unfolding set_field set_text
  Listed-IsSettable key text l (inl (e, _)) =
      subst (λ k. IsSettable k (string text)) e (λ p. (record p { checkpoint_name = text }, refl))
  Listed-IsSettable key text l (inr (inl (e, _))) =
      subst (λ k. IsSettable k (string text)) e
        (λ p. (record p { diffusion_model_name = text }, refl))
  Listed-IsSettable key text l (inr (inr (inl (e, _)))) =
      subst (λ k. IsSettable k (string text)) e (λ p. (record p { clip_name = text }, refl))
  Listed-IsSettable key text l (inr (inr (inr (inl (e, _))))) =
      subst (λ k. IsSettable k (string text)) e (λ p. (record p { vae_name = text }, refl))
  Listed-IsSettable key text l (inr (inr (inr (inr (inl (e, _)))))) =
      subst (λ k. IsSettable k (string text)) e (λ p. (record p { sampler_name = text }, refl))
  Listed-IsSettable key text l (inr (inr (inr (inr (inr (inl (e, _))))))) =
      subst (λ k. IsSettable k (string text)) e (λ p. (record p { scheduler = text }, refl))
  Listed-IsSettable key text l (inr (inr (inr (inr (inr (inr x)))))) = elim x [ ]

  Entry-IsSettable : (k : String) (v : Json) → Entry py a k v → IsSettable k v
  unfolding set_field set_text
  Entry-IsSettable k v (listed key text l at c) = Listed-IsSettable key text l at
  Entry-IsSettable k v (steps n low high) = λ p. (record p { steps = n }, refl)
  Entry-IsSettable k v (cfg_scale f low high) = λ p. (record p { cfg_scale = py.print f }, refl)
  Entry-IsSettable k v (negative_prompt s m) = λ p. (record p { negative_prompt = s }, refl)

  Entries-AllSettable : (d : Fields) → Entries py a d → AllSettable d
  Entries-AllSettable end h = tt
  Entries-AllSettable (field k v rest) h = (Entry-IsSettable k v h.0, Entries-AllSettable rest h.1)

  -- Validated overrides that have a negative prompt can be applied to every profile, and the
  -- negative prompt of the result begins with the profile's own terms, stripped, whatever the
  -- caller sends.
  pub apply_overrides-floor :
      (p : ComfyProfile) (d : Fields) (s : String)
      → Entries py a d
      → get "negative_prompt" d ≡ some (string s)
      → (p' : ComfyProfile) × (apply_overrides p d ≡ some p')
        × (rest : String) × (p'.negative_prompt ≡ join (strip p.negative_prompt) rest)
  unfolding apply_overrides
  apply_overrides-floor p d s h g =
      let (p', e, n) =
        replace-add_last (merge_terms (strip p.negative_prompt) (strip s)) (pop "negative_prompt" d)
          p (AllSettable-pop "negative_prompt" d (Entries-AllSettable d h)) in
      let (rest, m) = merge_terms-join (strip p.negative_prompt) (strip s) in
      (p', ap (λ o. apply_at o p d) g ∙ e, rest, n ∙ m)
