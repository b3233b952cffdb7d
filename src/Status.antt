-- ===== src/Status.antt =====
-- src/status.rs: the packets that the proxy itself sends to a client.
pub mod Packets
use redoxide.Common.{ℕ, Bytes, [], ◌∷◌, ◌++◌}
use redoxide.Config.{StatusConfig, codes}
use redoxide.Protocol.Varint.{encode_varint}
use redoxide.Protocol.Packet.{encode_packet, encode_string}

-- The values of `serde_json` that the proxy builds; a number is an i32.
mutual
  pub data Json : Type 0 where
    number : ℕ → Json
    string : Bytes → Json
    array : Items → Json
    object : Fields → Json

  pub data Items : Type 0 where
    nil : Items
    cons : Json → Items → Items

  pub data Fields : Type 0 where
    end : Fields
    field : (key : Bytes) → Json → Fields → Fields

-- The value of `build_status_json`.
unfoldable pub status_value : Bytes → StatusConfig → ℕ → Json
status_value motd cfg online = object (
    field (codes "version")
      (object (
        field (codes "name") (string cfg.version_name)
          (field (codes "protocol") (number cfg.protocol_version) end)))
      (field (codes "players")
        (object (
          field (codes "max") (number cfg.max_players)
            (field (codes "online") (number online) (field (codes "sample") (array nil) end))))
        (field (codes "description") (object (field (codes "text") (string motd) end)) end)))

-- The value of `encode_login_disconnect`.
unfoldable pub reason_value : Bytes → Json
reason_value reason = object (field (codes "text") (string reason) end)

-- `serde_json::Value::to_string`, of a library.
module _ (to_string : Json → Bytes) where
  unfoldable pub build_status_json : Bytes → StatusConfig → ℕ → Bytes
  build_status_json motd cfg online_players = to_string (status_value motd cfg online_players)

  unfoldable pub encode_status_response : Bytes → StatusConfig → ℕ → Bytes
  encode_status_response motd cfg online =
      encode_packet 0x00 (encode_string (build_status_json motd cfg online))

  unfoldable pub encode_login_disconnect : Bytes → Bytes
  encode_login_disconnect reason =
      encode_packet 0x00 (encode_string (to_string (reason_value reason)))

unfoldable pub encode_login_plugin_request : ℕ → Bytes → Bytes
encode_login_plugin_request message_id channel =
    encode_packet 0x04 (encode_varint message_id ++ encode_string channel)
