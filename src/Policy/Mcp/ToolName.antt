-- ===== src/Policy/Mcp/ToolName.antt =====
-- The name of an MCP tool, as apps/agent/src/mcp-client.ts forms it, and the server id that
-- `parseMcpServerId` reads back.
use openhermit.Prelude.{
  Text, codes, length, take, some, [], ◌∷◌, ◌++◌, ◌≡◌, ◌≢◌, ◌⊎◌, refl, ap, arith,
}
use openhermit.Policy.Mcp.{index_of_sep, parse_mcp_server_id}

-- `mcp__${state.serverId}__${mcpTool.name}`
unfoldable pub mcp_tool_name : Text → Text → Text
mcp_tool_name server_id name = codes "mcp__" ++ (server_id ++ (codes "__" ++ name))

-- No two underscores stand side by side, and none stands at the end.
abbrev pub NoSep : Text → Type 0
NoSep [] = Unit
NoSep (c ∷ []) = c ≢ b'_'
NoSep (c ∷ d ∷ s) = ((c ≢ b'_') ⊎ (d ≢ b'_')) × NoSep (d ∷ s)

index_of_sep-here : (s : Text) → index_of_sep (codes "__" ++ s) ≡ some 0
unfolding index_of_sep
index_of_sep-here [] = refl
index_of_sep-here (c ∷ s) = refl

index_of_sep-append :
    (s name : Text) → NoSep s → index_of_sep (s ++ (codes "__" ++ name)) ≡ some (length s)
unfolding index_of_sep
index_of_sep-append [] name h = index_of_sep-here name
index_of_sep-append (c ∷ []) name h = ground (arith, h, index_of_sep-here name)
index_of_sep-append (c ∷ d ∷ s) name (h, hs) =
    ground (arith, h, index_of_sep-append (d ∷ s) name hs)

take-length : (s t : Text) → take (length s) (s ++ t) ≡ s
take-length [] t = refl
take-length (c ∷ s) t = ap (λ r. c ∷ r) (take-length s t)

-- The server id is read back from the name of any of the server's tools, if it holds no two
-- underscores side by side and does not end in one.
pub parse_mcp_server_id-mcp_tool_name :
    (server_id name : Text)
    → NoSep server_id
    → parse_mcp_server_id (mcp_tool_name server_id name) ≡ some server_id
unfolding mcp_tool_name parse_mcp_server_id
parse_mcp_server_id-mcp_tool_name server_id name h =
    rw (index_of_sep-append server_id name h) (ap some (take-length server_id (codes "__" ++ name)))
