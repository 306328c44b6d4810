-- ===== src/Comfy/Routing/RoundTrip.antt =====
-- `submit` and `get_status` of backend/app/adapters/routing_comfyui.py together.
use mathlib.Core.Path.{subst}
use imagin.Prelude.{String, ◌≡◌, refl, false, Option, none, some, ◌⊎◌, inl, inr, str_eq, Bool-cases}
use imagin.Prelude.Parts.{with_colon, has_colon, partition-with_colon}
use imagin.Prelude.Json.{Fields}
use imagin.Prelude.Python.{Python}
use imagin.Jobs.Registry.{WorkflowDefinition, resolve_workflow}
use imagin.Comfy.{accepted_injective, Client, Submitted, accepted, raised}
use imagin.Comfy.Routing.{
  cancel, adapter_call, Composite, resolve_backend, backend_of, refined, tagged, delegated,
  submitted, submit, get_status, not_configured, asked_with,
}

-- The adapter stands behind the tag.
abbrev Serves : Composite → Option Client × String → Type 0
Serves c (adapter, name) =
    ((name ≡ "comfyui") × (adapter ≡ some c.comfyui)) ⊎ ((name ≡ "gemini") × (adapter ≡ c.gemini))

backend_of-Serves : (c : Composite) (o : Option WorkflowDefinition) → Serves c (backend_of c o)
backend_of-Serves c none = inl (refl, refl)
backend_of-Serves c (some w) = elim (Bool-cases (str_eq w.backend "gemini")) [
  | inl e ↦ rw e (inr (refl, refl))
  | inr e ↦ rw e (inl (refl, refl))
]

resolve_backend-Serves : (c : Composite) (kind : Option String) → Serves c (resolve_backend c kind)
resolve_backend-Serves c none = inl (refl, refl)
resolve_backend-Serves c (some kind) = backend_of-Serves c (resolve_workflow kind "v1")

get_status-comfyui :
    (c : Composite) (real_id : String)
    → get_status c (with_colon "comfyui" real_id)
      ≡ asked_with (with_colon "comfyui" real_id) (some c.comfyui) real_id
unfolding get_status has_colon
get_status-comfyui c real_id = rw (partition-with_colon "comfyui" real_id refl) refl

get_status-gemini :
    (c : Composite) (real_id : String)
    → get_status c (with_colon "gemini" real_id)
      ≡ asked_with (with_colon "gemini" real_id) c.gemini real_id
unfolding get_status has_colon
get_status-gemini c real_id = rw (partition-with_colon "gemini" real_id refl) refl

get_status-tagged :
    (c : Composite) (adapter : Option Client) (name real_id : String)
    → Serves c (adapter, name)
    → get_status c (with_colon name real_id) ≡ asked_with (with_colon name real_id) adapter real_id
get_status-tagged c adapter name real_id (inl (n, a)) = rw (n, a) (get_status-comfyui c real_id)
get_status-tagged c adapter name real_id (inr (n, a)) = rw (n, a) (get_status-gemini c real_id)

-- A cancellation goes to the adapter behind the tag.
cancel-tagged :
    (c : Composite) (adapter : Option Client) (name real_id : String)
    → Serves c (adapter, name)
    → cancel c (with_colon name real_id) ≡ adapter_call adapter real_id
unfolding cancel has_colon
cancel-tagged c adapter name real_id (inl (n, a)) =
    rw (n, a) (rw (partition-with_colon "comfyui" real_id refl) refl)
cancel-tagged c adapter name real_id (inr (n, a)) =
    rw (n, a) (rw (partition-with_colon "gemini" real_id refl) refl)

cancel-not_configured :
    (c : Composite) (rest : String) → cancel c (with_colon "notconfigured" rest) ≡ none
unfolding cancel has_colon
cancel-not_configured c rest = rw (partition-with_colon "notconfigured" rest refl) refl

get_status-not_configured :
    (c : Composite) (hex : String)
    → has_colon c.image_provider_name ≡ false
    → str_eq c.image_provider_name "" ≡ false
    → get_status c (with_colon "notconfigured" (with_colon c.image_provider_name hex))
      ≡ not_configured
          (with_colon "notconfigured" (with_colon c.image_provider_name hex))
          c.image_provider_name
unfolding get_status has_colon
get_status-not_configured c hex h g =
    rw
      (
        partition-with_colon "notconfigured" (with_colon c.image_provider_name hex) refl,
        partition-with_colon c.image_provider_name hex h,
        g,
      )
      refl

module _ (py : Python) (c : Composite) (no_colon : has_colon c.image_provider_name ≡ false)
    (named : str_eq c.image_provider_name "" ≡ false) where
  -- The backend of the kind accepted the payload, and answers for its own identifier.
  abbrev pub Served : Fields → Option String → String → Type 0
  Served payload kind p =
      (adapter : Client) × (name real_id : String) × (sent : Fields) × (resolve_backend c kind
        ≡ (some adapter, name))
      × (refined py c name payload ≡ some sent)
      × (adapter.submit sent kind ≡ accepted real_id)
      × (get_status c p ≡ asked_with p (some adapter) real_id)
      × (cancel c p ≡ some (adapter, real_id))

  -- The kind has no backend here, and the prompt is answered for with that.
  abbrev pub Unserved : Option String → String → Type 0
  Unserved kind p =
      (name : String) × (resolve_backend c kind ≡ (none, name))
      × (get_status c p ≡ not_configured p c.image_provider_name)
      × (cancel c p ≡ none)

  module _ (payload : Fields) (kind : Option String) (p : String) where
    from_answer :
        (adapter : Client) (name : String) (sent : Fields)
        → resolve_backend c kind ≡ (some adapter, name)
        → refined py c name payload ≡ some sent
        → Serves c (some adapter, name)
        → (r : Submitted) → adapter.submit sent kind ≡ r
        → tagged py name r ≡ accepted p
        → Served payload kind p
    from_answer adapter name sent b s w (raised x) h e = absurd cc
    from_answer adapter name sent b s w (accepted real_id) h e =
        let same : with_colon name real_id ≡ p = accepted_injective e in
        (
          adapter,
          name,
          real_id,
          sent,
          b,
          s,
          h,
          subst (λ q. get_status c q ≡ asked_with q (some adapter) real_id) same
              (get_status-tagged c (some adapter) name real_id w),
          subst (λ q. cancel c q ≡ some (adapter, real_id)) same
              (cancel-tagged c (some adapter) name real_id w),
        )

    from_payload :
        (adapter : Client) (name : String)
        → resolve_backend c kind ≡ (some adapter, name)
        → Serves c (some adapter, name)
        → (o : Option Fields) → refined py c name payload ≡ o
        → delegated py adapter name kind o ≡ accepted p
        → Served payload kind p
    from_payload adapter name b w none h e = absurd cc
    from_payload adapter name b w (some sent) h e = from_answer adapter name sent b h w _ refl e

    from_backend :
        (hex : String) (backend : Option Client × String)
        → resolve_backend c kind ≡ backend
        → Serves c backend
        → submitted py c backend payload kind hex ≡ accepted p
        → Served payload kind p ⊎ Unserved kind p
    from_backend hex (none, name) b w e =
        let same : with_colon "notconfigured" (with_colon c.image_provider_name hex) ≡ p =
          accepted_injective e in
        inr (
          name,
          b,
          subst (λ q. get_status c q ≡ not_configured q c.image_provider_name) same
              (get_status-not_configured c hex no_colon named),
          subst (λ q. cancel c q ≡ none) same (cancel-not_configured c _),
        )
    from_backend hex (some adapter, name) b w e = inl (from_payload adapter name b w _ refl e)

    -- Where the name of the image provider is not empty and has no colon, for any process with the same
    -- clients and whatever the random identifier is: a prompt that `submit` accepts went, with its prompt
    -- redesigned or not, to the backend of its kind, which `get_status` asks and `cancel` calls under the
    -- identifier that it gave; or the backend of the kind is not configured, `get_status` answers that
    -- the job failed for that, and `cancel` calls nobody.
    pub route-get_status :
        (hex : String)
        → submit py c payload kind hex ≡ accepted p
        → Served payload kind p ⊎ Unserved kind p
    unfolding submit
    route-get_status hex e = from_backend hex _ refl (resolve_backend-Serves c kind) e
