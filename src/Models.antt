-- ===== src/Models.antt =====
-- models/models.go: the rows that the scheduler reads. Times are nanoseconds, a float64 is its
-- 64-bit word; the counts, latencies and speeds of the code are never negative.
use proxy_forge.Prelude.{ℕ, Bool, Option, Bytes, codes, str_eq}

pub record Account : Type 0 where
  pub id : ℕ
  pub tag : Bytes
  pub directory : Bytes
  pub status : Bytes
  pub private_key : Bytes
  pub client_id : Bytes
  pub access_token : Bytes
  pub device_id : Bytes
  pub license_key : Bytes
  pub peer_public_key : Bytes
  pub local_address_v4 : Bytes
  pub local_address_v6 : Bytes
  pub endpoint_host : Bytes
  pub endpoint_port : ℕ
  pub mtu : ℕ
  pub listen_port : ℕ
  pub masque_private_key : Bytes
  pub masque_endpoint_pub_key : Bytes
  pub masque_endpoint_v4 : Bytes
  pub masque_endpoint_v6 : Bytes
  pub last_public_ip : Bytes
  pub last_colo : Bytes
  pub last_country : Bytes
  pub last_latency_ms : ℕ
  pub last_speed_bps : ℕ
  pub last_packet_loss : ℕ
  pub last_score : ℕ
  pub last_tested_at : Option ℕ
  pub traffic_up : ℕ
  pub traffic_down : ℕ
  pub is_ip_keeper : Bool
  pub created_at : ℕ
  pub disabled_reason : Bytes

-- The columns of proxy_slots but its two timestamps, which the scheduler does not read. The struct
-- has also columns of the bound account; `account_of` of Database finds that.
pub record ProxySlot : Type 0 where
  pub id : ℕ
  pub username : Bytes
  pub password : Bytes
  pub account_id : Option ℕ
  pub pinned_public_ip : Bytes
  pub status : Bytes
  pub last_error : Bytes
  pub probe_failures : ℕ
  pub ip_drift_failures : ℕ

-- A row of account_tests, with the columns that are read back.
pub record AccountTest : Type 0 where
  pub account_id : ℕ
  pub tested_at : ℕ
  pub error : Bytes

abbrev pub active : Bytes
active = codes "active"

unfoldable pub is_active : ProxySlot → Bool
is_active s = str_eq s.status active

unfoldable pub is_active_account : Account → Bool
is_active_account a = str_eq a.status active
