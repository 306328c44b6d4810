-- ===== src/Comfy/Live/Links.antt =====
-- The links between the nodes of the graphs of backend/app/adapters/comfyui/live.py.
use mathlib.Core.Path.{subst}
use imagin.Prelude.{
  ℕ, String, ◌≡◌, refl, Bool, true, false, ◌&&◌, Option, none, some, str_eq, Bool-cases, inl, inr,
}
use imagin.Prelude.Int.{ℤ}
use imagin.Prelude.Json.{Json, Fields, string, integer, array, object, nil, cons, end, field, get}
use imagin.Prelude.Python.{Python}
use imagin.Jobs.Profiles.{ComfyProfile}
use imagin.Comfy.Live.Graph.{build_checkpoint_graph, build_split_auraflow_graph}
use imagin.Comfy.Live.{
  LiveClient, Result, done, failed, seed_of, prompt_of, graph_of, build_prompt_graph,
  resolve_active_profile, ◌>>=◌,
}

abbrev has : Option Json → Bool
has none = false
has (some v) = true

-- A link `[node, output]` names a node of the graph.
abbrev is_good : Fields → Json → Bool
is_good graph (array (cons (string node) (cons (integer output) nil))) = has (get node graph)
is_good graph v = true

abbrev all_good : Fields → Fields → Bool
all_good graph end = true
all_good graph (field k v rest) = is_good graph v && all_good graph rest

-- The inputs of the node are there, and its links are good.
abbrev inputs_good : Fields → Option Json → Bool
inputs_good graph (some (object inputs)) = all_good graph inputs
inputs_good graph o = false

abbrev nodes_good : Fields → Fields → Bool
nodes_good graph end = true
nodes_good graph (field k (object node) rest) =
    has (get "class_type" node) && inputs_good graph (get "inputs" node) && nodes_good graph rest
nodes_good graph (field k v rest) = false

-- Every node of the graph is one, with inputs whose links name nodes of the graph.
abbrev pub IsLinked : Fields → Type 0
IsLinked graph = nodes_good graph graph ≡ true

checkpoint-IsLinked :
    (p : ComfyProfile) (prompt : String) (size : ℕ × ℕ) (seed : ℤ) (prefix : String)
    → IsLinked (build_checkpoint_graph p prompt size seed prefix)
unfolding build_checkpoint_graph get
checkpoint-IsLinked p prompt (w, h) seed prefix = refl

split-IsLinked :
    (p : ComfyProfile) (prompt : String) (size : ℕ × ℕ) (seed : ℤ) (prefix clip_type : String)
    → IsLinked (build_split_auraflow_graph p prompt size seed prefix clip_type)
unfolding build_split_auraflow_graph get
split-IsLinked p prompt (w, h) seed prefix clip_type = refl

graph_of-IsLinked :
    (py : Python) (p : ComfyProfile) (prompt prefix : String) (size : ℕ × ℕ) (seed : ℤ)
    → IsLinked (graph_of py p prompt prefix size seed)
graph_of-IsLinked py p prompt prefix size seed =
    elim (Bool-cases (str_eq p.model_family "qwen_image")) [
      | inl e ↦ rw e (split-IsLinked p prompt size seed prefix "qwen_image")
      | inr e ↦ rw e (elim (Bool-cases (str_eq p.model_family "z_image_turbo")) [
        | inl f ↦ rw f (split-IsLinked p prompt size seed prefix "lumina2")
        | inr f ↦ rw f (checkpoint-IsLinked p prompt size seed prefix)
      ])
    ]

-- A graph that is built is linked.
abbrev DoneIsLinked : Result Fields → Type 0
DoneIsLinked r = (graph : Fields) → r ≡ done graph → IsLinked graph

chain-DoneIsLinked :
    {A : Type 0} (r : Result A) (f : A → Result Fields)
    → ((x : A) → DoneIsLinked (f x))
    → DoneIsLinked (r >>= f)
chain-DoneIsLinked (done x) f h graph b = h x graph b
chain-DoneIsLinked (failed e) f h graph b = absurd cc

done-DoneIsLinked : (g : Fields) → IsLinked g → DoneIsLinked (done g)
done-DoneIsLinked g h graph e = subst IsLinked (injective e) h
  where
    injective : {a b : Fields} → done a ≡ done b → a ≡ b
    injective e = cc

-- Whatever the payload is: if a graph is built, each of its nodes has a class and inputs, and each
-- link in its inputs names a node of the graph.
pub build_prompt_graph-IsLinked :
    (py : Python) (c : LiveClient) (payload : Fields) (prefix : String) (draw : ℕ) (graph : Fields)
    → build_prompt_graph py c payload prefix draw ≡ done graph
    → IsLinked graph
unfolding build_prompt_graph
build_prompt_graph-IsLinked py c payload prefix draw =
    chain-DoneIsLinked (resolve_active_profile py c payload) _ (λ p. chain-DoneIsLinked _ _ (λ size.
      chain-DoneIsLinked (seed_of py (get "seed" payload) draw) _ (λ seed.
        done-DoneIsLinked _ (graph_of-IsLinked py p (prompt_of py payload) prefix size seed))))
