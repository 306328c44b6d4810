-- ===== src/Jobs/Registry/Kinds.antt =====
-- The kinds of the two backends, and what a workflow resolves to.
use mathlib.Core.Path.{subst}
use imagin.Prelude.{
  String, ◌≡◌, true, false, some, arith, eq_iff, contains, refl, inl, inr, ◌&&◌, List, [], ◌∷◌,
  str_eq, Bool-cases, All,
}
use imagin.Jobs.Registry.{
  WorkflowDefinition, registry, look_up, resolve_workflow, backend_for_kind, kinds_for_backend,
}

gemini_only :
    (kind : String)
    → contains kind (kinds_for_backend "gemini") ≡ true
    → "poster_infographic" ≡ kind
unfolding kinds_for_backend
gemini_only kind h = (eq_iff "poster_infographic" kind).0 (ground arith)

gemini_not_comfy : contains "poster_infographic" (kinds_for_backend "comfyui") ≡ false
unfolding kinds_for_backend
gemini_not_comfy = refl

-- The two lanes of the scheduler are disjoint: no kind belongs to both backends.
pub backends_disjoint :
    (kind : String)
    → contains kind (kinds_for_backend "gemini") ≡ true
    → contains kind (kinds_for_backend "comfyui") ≡ false
backends_disjoint kind h = rw (← gemini_only kind h) gemini_not_comfy

-- What the theorem below says of one workflow.
abbrev Consistent : WorkflowDefinition → Type 0
Consistent w =
    (contains w.name (kinds_for_backend w.backend) ≡ true)
    × (backend_for_kind w.name ≡ some w.backend)

entries : All Consistent registry
unfolding kinds_for_backend backend_for_kind
entries = ((refl, refl), ((refl, refl), ((refl, refl), ((refl, refl), tt))))

same_workflow :
    (name version : String) (v : WorkflowDefinition) (vs : List WorkflowDefinition)
    (w : WorkflowDefinition)
    → (str_eq v.name name && str_eq v.version version) ≡ true
    → look_up name version (v ∷ vs) ≡ some w
    → (v ≡ w) × (v.name ≡ name) × (v.version ≡ version)
unfolding look_up
same_workflow name version v vs w e h =
    (ground arith, ground (arith, eq_iff v.name name), ground (arith, eq_iff v.version version))

look_up-All :
    (P : WorkflowDefinition → Type 0) (name version : String) (l : List WorkflowDefinition)
    (w : WorkflowDefinition)
    → All P l
    → look_up name version l ≡ some w
    → P w × (w.name ≡ name) × (w.version ≡ version)
unfolding look_up
look_up-All P name version [] w a h = absurd (ground arith)
look_up-All P name version (v ∷ vs) w a h =
    elim (Bool-cases (str_eq v.name name && str_eq v.version version)) [
      | inl e ↦
          let (same, n, k) = same_workflow name version v vs w e h in
          subst (λ x. P x × (x.name ≡ name) × (x.version ≡ version)) same (a.0, n, k)
      | inr e ↦ look_up-All P name version vs w a.1 (ground arith)
    ]

-- A workflow that resolves has the name and version asked for; its name is one of the kinds of its
-- own backend, and the backend found for the name as a kind is the workflow's.
pub resolve_workflow_backend :
    (name version : String) (w : WorkflowDefinition)
    → resolve_workflow name version ≡ some w
    → (w.name ≡ name)
      × (w.version ≡ version)
      × (contains name (kinds_for_backend w.backend) ≡ true)
      × (backend_for_kind name ≡ some w.backend)
unfolding resolve_workflow
resolve_workflow_backend name version w h =
    let (found, n, v) = look_up-All Consistent name version registry w entries h in
    (n, v, rw (← n) found.0, rw (← n) found.1)
