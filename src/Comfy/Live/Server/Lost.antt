-- ===== src/Comfy/Live/Server/Lost.antt =====
-- What becomes of a submission that fails.
use mathlib.Core.Path.{subst}
use imagin.Prelude.{
  ℕ, String, ◌≡◌, refl, sym, ap, eq_iff, Bool, true, false, Option, none, some, str_eq, inl, inr,
  ◌⊎◌, Bool-cases,
}
use imagin.Prelude.Json.{Json, Fields, get, object, string, field, end}
use imagin.Prelude.Parts.{join, with_colon, has_colon, partition-with_colon}
use imagin.Prelude.Python.{Python, str}
use imagin.Comfy.{accepted_injective, accepted, failed_status}
use imagin.Comfy.Live.{LiveClient, Result, done, failed, prompt_of, build_prompt_graph}
use imagin.Comfy.Live.Server.{
  Server, Resolved, local_failure, local_fail_prefix, sanitized_error, after_prefix, submit,
  get_status, posted, prompt_id_of, submitted,
}

prefixed : (s : String) → after_prefix local_fail_prefix (join local_fail_prefix s) ≡ some s
unfolding after_prefix join
prefixed s = refl

abbrev is_blank : String → Bool
is_blank Prim.Native.String.[] = true
is_blank (Prim.Native.String.◌∷◌ c s) = false

sanitized : (x : String) → str_eq (sanitized_error x) "" ≡ false
unfolding sanitized_error join
sanitized x = elim (Bool-cases (str_eq (sanitized_error x) "")) [
  | inl e ↦
      let not_blank : false ≡ true = ap is_blank ((eq_iff (sanitized_error x) "").0 e) in absurd cc
  | inr e ↦ e
]

module _ (hex : String) (no_colon : has_colon hex ≡ false) where
  -- The status that every process gives of a local failure.
  abbrev pub Fails : String → String → Type 0
  Fails p reason =
      (server : Server) (resolved : Resolved)
      → get_status server p resolved ≡ (failed_status p reason, resolved)

  lost-Fails :
      (reason : String) → str_eq reason "" ≡ false → Fails (local_failure hex reason) reason
  unfolding get_status local_failure
  lost-Fails reason h server resolved =
      rw (prefixed (with_colon hex reason), partition-with_colon hex reason no_colon, h) refl

  module _ (py : Python) (server : Server) (c : LiveClient) (payload : Fields) (draw : ℕ)
      (prefix : String) (resolved : Resolved) where
    abbrev body : Fields → Fields
    body graph = field "prompt" (object graph) (field "client_id" (string c.client_id) end)

    -- The server accepted the graph, and gave the identifier.
    abbrev pub Accepted : String → Type 0
    Accepted p =
        (graph reply : Fields) × (v : Json) × (build_prompt_graph py c payload prefix draw
          ≡ done graph)
        × (server.post_prompt (body graph) ≡ done reply)
        × (get "prompt_id" reply ≡ some v)
        × (p ≡ str py v)

    abbrev pub Lost : String → Type 0
    Lost p = (reason : String) × (str_eq reason "" ≡ false) × Fails p reason

    Lost-Lost :
        (reason p : String)
        → str_eq reason "" ≡ false
        → accepted (local_failure hex reason) ≡ accepted p
        → Lost p
    Lost-Lost reason p h e = subst Lost (accepted_injective e) (reason, h, lost-Fails reason h)

    from_reply :
        (graph reply : Fields) (p : String)
        → build_prompt_graph py c payload prefix draw ≡ done graph
        → server.post_prompt (body graph) ≡ done reply
        → (o : Option Json) → get "prompt_id" reply ≡ o
        → (prompt_id_of py hex resolved o).0 ≡ accepted p
        → Accepted p ⊎ Lost p
    unfolding sanitized_error join
    from_reply graph reply p b r none g e = inr (Lost-Lost _ p refl e)
    from_reply graph reply p b r (some v) g e =
        inl (graph, reply, v, b, r, g, sym (accepted_injective e))

    from_post :
        (graph : Fields) (p : String)
        → build_prompt_graph py c payload prefix draw ≡ done graph
        → (r : Result Fields) → server.post_prompt (body graph) ≡ r
        → (posted py hex resolved r).0 ≡ accepted p
        → Accepted p ⊎ Lost p
    unfolding sanitized_error join
    from_post graph p b (done reply) h e = from_reply graph reply p b h _ refl e
    from_post graph p b (failed x) h e = inr (Lost-Lost _ p (sanitized x) e)

    from_graph :
        (p : String) (r : Result Fields)
        → build_prompt_graph py c payload prefix draw ≡ r
        → (submitted py server c (prompt_of py payload) hex r resolved).0 ≡ accepted p
        → Accepted p ⊎ Lost p
    from_graph p (failed x) h e = cc
    from_graph p (done graph) h e = elim (Bool-cases (str_eq (prompt_of py payload) "")) [
      | inl t ↦ inr (Lost-Lost _ p refl (rw t at e))
      | inr t ↦ from_post graph p h _ refl (rw t at e)
    ]

    -- Where the random identifier has no colon: a prompt identifier that `submit` returns is either the
    -- one that the server gave for the payload's graph, or every process, whatever it has resolved and
    -- whatever any server answers, reads from it that the job failed, with a reason that is not empty.
    pub submit-answered :
        (p : String)
        → (submit py server c payload draw prefix hex resolved).0 ≡ accepted p
        → Accepted p ⊎ Lost p
    unfolding submit
    submit-answered p e = from_graph p _ refl e
