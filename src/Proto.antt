-- ===== src/Proto.antt =====
-- internal/proto/proto.go: the records that cross between the client, the daemon and the nodes.
use vibepod.Base.{ℕ, Bool, List, Text, Option}

-- `RelaySpec`: one relayed mount as a node sees it.
pub record RelaySpec : Type 0 where
  pub port : ℕ
  pub key_file : Text
  pub user : Text

-- `MountSpec`: one mount, as the client resolved it from the config. A nil `Relay` is `none`.
pub record MountSpec : Type 0 where
  pub at : Text
  pub src : Text
  pub host : Text
  pub path : Text
  pub read_only : Bool
  pub mode : Text
  pub exec_on : Text
  pub identity : Bool
  pub requires : List Text
  pub cache : Text
  pub prefetch : Bool
  pub generation : ℕ
  pub many_writers : Bool
  pub via : Text
  pub expose_to : List Text
  pub relay : Option RelaySpec

-- `PortSpec`: `local_port` on this machine reaches `remote_port` on the host's own loopback.
pub record PortSpec : Type 0 where
  pub host : Text
  pub remote_port : ℕ
  pub local_port : ℕ

-- `Held`: one mount as a node pod holds it.
pub record Held : Type 0 where
  pub at : Text
  pub host : Text
  pub path : Text
  pub native : Bool
  pub read_only : Bool
  pub generation : ℕ
  pub relayed : Bool
  pub hop : Bool
