-- ===== src/Mcp/Contents.antt =====
-- The content that a server sends, against what `StdioMcp::read_resource` of
-- crates/walastack-mcp/src/stdio.rs makes of it.
use walastack_rs.Base.{
  String, ◌≡◌, refl, Option, none, some, List, [], ◌∷◌, nat_keys, string_keys, codes_keys, and_then,
  lookup, Result, ok,
}
use walastack_rs.Json.{SerdeJson}
use walastack_rs.Json.Laws.{IsLawful, AreDistinct, get-object}
use walastack_rs.Mcp.Config.{McpError}
use walastack_rs.Mcp.InMemory.{ResourceContent, ResourcePayload, text_payload, blob_payload}
use walastack_rs.Mcp.Stdio.{entry_payload, first_content, Connections, connection_of, read_resource}

module _ (json : SerdeJson) where
  open json use {Value, text, array, object, get, as_str, as_array}

  -- An entry of `contents`, as the protocol has it.
  abbrev pub payload_entry : ResourcePayload Value → String × Value
  payload_entry (text_payload t) = ("text", text t)
  payload_entry (blob_payload b) = ("blob", text b)

  abbrev pub mime_entry : Option String → List (String × Value)
  mime_entry none = []
  mime_entry (some m) = ("mimeType", text m) ∷ []

  abbrev pub content_entries :
      (uri : String) (mime_type : Option String) → ResourcePayload Value → List (String × Value)
  content_entries uri mime_type payload =
      ("uri", text uri) ∷ payload_entry payload ∷ mime_entry mime_type

  abbrev pub content_value : ResourceContent Value → Value
  content_value c = object (content_entries c.uri c.mime_type c.payload)

  module _ (lawful : IsLawful json) where
    content_entries-AreDistinct :
        (uri : String) (mime_type : Option String) (payload : ResourcePayload Value)
        → AreDistinct json (content_entries uri mime_type payload)
    unfolding lookup
    content_entries-AreDistinct uri none (text_payload t) = (refl, (refl, tt))
    content_entries-AreDistinct uri (some m) (text_payload t) = (refl, (refl, (refl, tt)))
    content_entries-AreDistinct uri none (blob_payload b) = (refl, (refl, tt))
    content_entries-AreDistinct uri (some m) (blob_payload b) = (refl, (refl, (refl, tt)))

    get-content_entries :
        (key uri : String) (mime_type : Option String) (payload : ResourcePayload Value)
        → get key (object (content_entries uri mime_type payload))
          ≡ lookup key (content_entries uri mime_type payload)
    get-content_entries key uri mime_type payload =
        get-object json lawful key (content_entries uri mime_type payload)
          (content_entries-AreDistinct uri mime_type payload)

    entry_payload-content :
        (uri : String) (mime_type : Option String) (payload : ResourcePayload Value)
        → entry_payload json (object (content_entries uri mime_type payload)) ≡ ok payload
    unfolding entry_payload lookup
    entry_payload-content uri mime_type (text_payload t) =
        rw (get-content_entries "text" uri mime_type (text_payload t), lawful.as_str-text t) refl
    entry_payload-content uri none (blob_payload b) =
        rw
          (
            get-content_entries "text" uri none (blob_payload b),
            get-content_entries "blob" uri none (blob_payload b),
            lawful.as_str-text b,
          )
          refl
    entry_payload-content uri (some m) (blob_payload b) =
        rw
          (
            get-content_entries "text" uri (some m) (blob_payload b),
            get-content_entries "blob" uri (some m) (blob_payload b),
            lawful.as_str-text b,
          )
          refl

    mime_type-content :
        (uri : String) (mime_type : Option String) (payload : ResourcePayload Value)
        → and_then (get "mimeType" (object (content_entries uri mime_type payload))) as_str
          ≡ mime_type
    unfolding lookup
    mime_type-content uri none (text_payload t) =
        rw (get-content_entries "mimeType" uri none (text_payload t)) refl
    mime_type-content uri none (blob_payload b) =
        rw (get-content_entries "mimeType" uri none (blob_payload b)) refl
    mime_type-content uri (some m) (text_payload t) =
        rw (get-content_entries "mimeType" uri (some m) (text_payload t), lawful.as_str-text m) refl
    mime_type-content uri (some m) (blob_payload b) =
        rw (get-content_entries "mimeType" uri (some m) (blob_payload b), lawful.as_str-text m) refl

    -- Where the server answers with contents, `read_resource` gives the first one as it was sent, its
    -- payload and its MIME type included, under the URI that was asked for and not the one that the
    -- server put in.
    pub read_resource-content :
        {Connection : Type 0} (request : Connection → String → Value → Result Value McpError)
        (connections : Connections json request) (server uri : String) (conn : Connection)
        (c : ResourceContent Value) (others : List Value)
        → lookup server connections ≡ some conn
        → request conn "resources/read" (object (("uri", text uri) ∷ []))
          ≡ ok (object (("contents", array (content_value c ∷ others)) ∷ []))
        → read_resource json request server uri connections ≡ ok (record c { uri = uri })
    unfolding read_resource first_content connection_of lookup
    read_resource-content request connections server uri conn c others there answered =
        rw
          (
            there,
            answered,
            lawful.get_here "contents" (array (content_value c ∷ others)) [] refl,
            lawful.as_array-array (content_value c ∷ others),
            entry_payload-content c.uri c.mime_type c.payload,
            mime_type-content c.uri c.mime_type c.payload,
          )
          refl
