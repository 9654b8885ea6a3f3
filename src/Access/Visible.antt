-- ===== src/Access/Visible.antt =====
-- Which tools an agent sees, and which of them it wraps.
use openhermit.Prelude.{
  Bool, true, Option, some, List, [], ◌∷◌, filter, map, filter-In, In, ◌≡◌, ◌≢◌, ◌↔◌, inl, inr,
  arith, ap, sym, ◌∙◌,
}
use openhermit.Policy.{Principal, PolicyRow, deny, require_approval, effect_eq}
use openhermit.Access.{Tool, tool_decision, server_decision, is_visible, is_wrapped, filtered_tools}

module _ (p : Principal) (policy_rows mcp_rows : Option (List PolicyRow)) where
  pub is_visible_iff :
      (t : Tool)
      → (is_visible p policy_rows mcp_rows t ≡ true)
        ↔ ((tool_decision p policy_rows t ≢ deny) × (server_decision p mcp_rows t ≢ some deny))
  unfolding is_visible
  is_visible_iff t = (λ h. (ground arith, ground arith), λ h. ground (arith, h.0, h.1))

  -- The wrapper depends on the decision for the tool alone.
  pub is_wrapped-tool_decision :
      (t : Tool)
      → is_wrapped p policy_rows mcp_rows t
        ≡ effect_eq (tool_decision p policy_rows t) require_approval
  unfolding is_wrapped
  is_wrapped-tool_decision t = ground arith

  In-map_mark :
      (ts : List Tool) (t : Tool) (w : Bool)
      → In {A = Tool × Bool} (t, w) (map (λ u. (u, is_wrapped p policy_rows mcp_rows u)) ts)
      → In t ts × (w ≡ is_wrapped p policy_rows mcp_rows t)
  In-map_mark [] t w m = elim m [ ]
  In-map_mark (u ∷ ts) t w (inl e) =
      let same : t ≡ u = ap (λ x. x.0) e in
      (inl same, ap (λ x. x.1) e ∙ ap (is_wrapped p policy_rows mcp_rows) (sym same))
  In-map_mark (u ∷ ts) t w (inr m) = let rest = In-map_mark ts t w m in (inr rest.0, rest.1)

  -- A tool that the agent gets is one of the given tools, neither its own policy nor that of its MCP
  -- server denies it to the principal, and it is wrapped exactly if its own policy asks for an
  -- approval.
  pub filtered_tools-In :
      (tools : List Tool) (t : Tool) (w : Bool)
      → In {A = Tool × Bool} (t, w) (filtered_tools p policy_rows mcp_rows tools)
      → In t tools
        × (tool_decision p policy_rows t ≢ deny)
        × (server_decision p mcp_rows t ≢ some deny)
        × (w ≡ effect_eq (tool_decision p policy_rows t) require_approval)
  unfolding filtered_tools
  filtered_tools-In tools t w m =
      let (kept, mark) = In-map_mark (filter (is_visible p policy_rows mcp_rows) tools) t w m in
      let (stands, seen) = filter-In (is_visible p policy_rows mcp_rows) tools t kept in
      let (tool_ok, server_ok) = (is_visible_iff t).0 seen in
      (stands, tool_ok, server_ok, mark ∙ is_wrapped-tool_decision t)
