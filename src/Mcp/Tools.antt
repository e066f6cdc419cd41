-- ===== src/Mcp/Tools.antt =====
-- What the in-memory provider of crates/walastack-mcp/src/inmemory.rs lists, and what it invokes.
use walastack_rs.Base.{negsuc}
use walastack_rs.Base.{
  String, ◌≡◌, refl, sym, ap, ◌∙◌, Option, none, some, if◌then◌else◌, ◌⊎◌, inl, inr, true, false,
  List, [], ◌∷◌, ◌++◌, map, arith, Option-cases, ◌==◌, nat_keys, string_keys, codes_keys, All, has,
  has-append, All-find, is_some, lookup, lookup-insert, lookup-nil, ok, err, map_err,
}
use walastack_rs.Mcp.Config.{unknown_server, unknown_tool, remote_error}
use walastack_rs.Mcp.InMemory.{
  ToolDescriptor, ResourceDescriptor, ResourceContent, ToolImpl, InMemoryServer, new_server,
  with_display_name, with_tool, with_resource, InMemoryMcp, find_server, list_tools, invoke_tool,
}

module _ (Value : Type 0) where
  -- Servers that are built by the calls of the builder.
  pub data Built : InMemoryServer Value → Type 0 where
    starts : (id : String) → Built (new_server Value id)
    displays :
        {s : InMemoryServer Value} (name : String)
        → Built s
        → Built (with_display_name Value name s)
    adds_tool :
        {s : InMemoryServer Value} (descriptor : ToolDescriptor Value) (run : ToolImpl Value)
        → Built s
        → Built (with_tool Value descriptor run s)
    adds_resource :
        {s : InMemoryServer Value} (descriptor : ResourceDescriptor Value)
        (content : ResourceContent Value)
        → Built s
        → Built (with_resource Value descriptor content s)

  abbrev pub tool_names : List (ToolDescriptor Value) → List String
  tool_names tools = map (λ (t : ToolDescriptor Value). t.name) tools

  tool_names-append :
      (tools : List (ToolDescriptor Value)) (t : ToolDescriptor Value)
      → tool_names (tools ++ t ∷ []) ≡ tool_names tools ++ t.name ∷ []
  tool_names-append [] t = refl
  tool_names-append (u ∷ tools) t = ap (◌∷◌ u.name) (tool_names-append tools t)

  -- A tool has an implementation exactly if it is listed.
  Built-tools :
      {s : InMemoryServer Value}
      → Built s
      → (name : String) → is_some (lookup name s.tool_impls) ≡ has name (tool_names s.tools)
  unfolding new_server with_display_name with_tool with_resource
  Built-tools (starts id) name = rw (lookup-nil {V = ToolImpl Value} name) refl
  Built-tools (displays n b) name = Built-tools b name
  Built-tools (adds_tool {s} descriptor run b) name = ground (
    arith,
    lookup-insert descriptor.name name run s.tool_impls,
    tool_names-append s.tools descriptor,
    has-append name (tool_names s.tools) (descriptor.name ∷ []),
    Built-tools b name,
  )
  Built-tools (adds_resource descriptor content b) name = Built-tools b name

  -- The implementation that the calls of the builder gave a tool: the last one under its name.
  abbrev pub last_run :
      {s : InMemoryServer Value} → Built s → (tool : String) → Option (ToolImpl Value)
  last_run (starts id) tool = none
  last_run (displays name b) tool = last_run b tool
  last_run (adds_tool descriptor run b) tool =
      let older = last_run b tool in if descriptor.name == tool then some run else older
  last_run (adds_resource descriptor content b) tool = last_run b tool

  lookup-last_run :
      {s : InMemoryServer Value} (b : Built s) (tool : String)
      → lookup tool s.tool_impls ≡ last_run b tool
  unfolding new_server with_display_name with_tool with_resource
  lookup-last_run (starts id) tool = lookup-nil {V = ToolImpl Value} tool
  lookup-last_run (displays name b) tool = lookup-last_run b tool
  lookup-last_run (adds_tool {s} descriptor run b) tool =
      lookup-insert descriptor.name tool run s.tool_impls
      ∙ ap (λ older. if descriptor.name == tool then some run else older) (lookup-last_run b tool)
  lookup-last_run (adds_resource descriptor content b) tool = lookup-last_run b tool

  -- The server is unknown to both calls; or it is known, and the tool is either not listed and not
  -- found, or listed and the implementation that was given last is run on the arguments, with an error
  -- of it under the code -32000.
  abbrev pub Invokes : (server tool : String) → Value → InMemoryMcp Value → Type 0
  Invokes server tool arguments mcp =
      ((list_tools Value server mcp ≡ err (unknown_server server))
        × (invoke_tool Value server tool arguments mcp ≡ err (unknown_server server)))
      ⊎ ((s : InMemoryServer Value) × (built : Built s) × (find_server Value server mcp ≡ some s)
          × (list_tools Value server mcp ≡ ok s.tools)
          × (((has tool (tool_names s.tools) ≡ false)
                × (last_run built tool ≡ none)
                × (invoke_tool Value server tool arguments mcp ≡ err (unknown_tool server tool)))
              ⊎ ((has tool (tool_names s.tools) ≡ true)
                  × ((run : ToolImpl Value) × (last_run built tool ≡ some run)
                      × (invoke_tool Value server tool arguments mcp
                          ≡ map_err (remote_error (negsuc 31999)) (run arguments))))))

  -- Over servers that the builder made, a tool is invoked exactly if its server lists it, and what is
  -- run is the implementation with which it was added last.
  pub invoke_tool-list_tools :
      (server tool : String) (arguments : Value) (mcp : InMemoryMcp Value)
      → All Built mcp
      → Invokes server tool arguments mcp
  unfolding invoke_tool list_tools
  invoke_tool-list_tools server tool arguments mcp all =
      elim (Option-cases (find_server Value server mcp)) [
        | inl e ↦ inl (rw e refl, rw e refl)
        | inr (s, e) ↦
            let built =
              All-find Built (λ (x : InMemoryServer Value). x.id == server) mcp s all
                (unfold find_server in e) in
            let listed = Built-tools built tool in
            let same = lookup-last_run built tool in
            elim (Option-cases (lookup tool s.tool_impls)) [
              | inl l ↦ inr (
                s,
                built,
                e,
                rw e refl,
                inl (ground (arith, listed, l), sym same ∙ l, rw (e, l) refl),
              )
              | inr (run, l) ↦ inr (
                s,
                built,
                e,
                rw e refl,
                inr (ground (arith, listed, l), (run, sym same ∙ l, rw (e, l) refl)),
              )
            ]
      ]
