-- ===== src/Control/Packets/Ids.antt =====
-- src/control.rs: the ids that `define_packets!` gives to packets.
use rust_mumble_protocol.Base.{
  ℕ, ◌≡◌, ◌↔◌, refl, ap, ◌∙◌, subst, arith, ◌==◌, ==_iff, Bool-cases, true, false, if◌then◌else◌,
  inl, inr, some, List, [], ◌∷◌, All,
}
use rust_mumble_protocol.Control.Packets.{
  MessageName, version, authenticate, ping, reject, server_sync, channel_remove, channel_state,
  user_remove, user_state, ban_list, text_message, permission_denied, acl, query_users, crypt_setup,
  context_action_modify, context_action, user_list, voice_target, permission_query, codec_version,
  user_stats, request_blob, server_config, suggest_config, PacketName, message, udp_tunnel,
  packet_names, define_packet_mappings, first_name, id_of, name_of,
}

-- Each pair of the mapping has the id that the constant of the name has.
Agrees : ℕ × PacketName → Type 0
Agrees p = p.0 ≡ id_of p.1

mappings-Agrees : All Agrees (define_packet_mappings 0 packet_names)
unfolding Agrees
mappings-Agrees = omega arith

first_name-Agrees :
    (i : ℕ) (n : PacketName) (ms : List (ℕ × PacketName))
    → All Agrees ms
    → first_name i ms ≡ some n
    → i ≡ id_of n
unfolding Agrees
first_name-Agrees i n [] h e = cc
first_name-Agrees i n ((id, m) ∷ ms) (agrees, h) e = elim (Bool-cases (i == id)) [
  | inl same ↦
      let found : m ≡ n = cc (some_eq same e) in (==_iff i id).0 same ∙ agrees ∙ ap id_of found
  | inr other ↦ first_name-Agrees i n ms h (skipped other e)
]
  where
    some_eq : (i == id) ≡ true → first_name i ((id, m) ∷ ms) ≡ some n → some m ≡ some n
    some_eq same e = subst (λ b. (if b then some m else first_name i ms) ≡ some n) same e

    skipped : (i == id) ≡ false → first_name i ((id, m) ∷ ms) ≡ some n → first_name i ms ≡ some n
    skipped other e = subst (λ b. (if b then some m else first_name i ms) ≡ some n) other e

message-found : (n : MessageName) → name_of (id_of (message n)) ≡ some (message n)
unfolding name_of
message-found version = refl
message-found authenticate = refl
message-found ping = refl
message-found reject = refl
message-found server_sync = refl
message-found channel_remove = refl
message-found channel_state = refl
message-found user_remove = refl
message-found user_state = refl
message-found ban_list = refl
message-found text_message = refl
message-found permission_denied = refl
message-found acl = refl
message-found query_users = refl
message-found crypt_setup = refl
message-found context_action_modify = refl
message-found context_action = refl
message-found user_list = refl
message-found voice_target = refl
message-found permission_query = refl
message-found codec_version = refl
message-found user_stats = refl
message-found request_blob = refl
message-found server_config = refl
message-found suggest_config = refl

-- `match packet.id` takes the arm of a name exactly for that name's constant in `msgs::id`, so the
-- consecutive ids that the macros give out and the arms fit together.
pub name_of_iff : (i : ℕ) (n : PacketName) → (name_of i ≡ some n) ↔ (i ≡ id_of n)
unfolding name_of
name_of_iff i n = (there, back n)
  where
    there : name_of i ≡ some n → i ≡ id_of n
    there e = first_name-Agrees i n (define_packet_mappings 0 packet_names) mappings-Agrees e

    back : (n : PacketName) → i ≡ id_of n → name_of i ≡ some n
    back (message k) e = ap name_of e ∙ message-found k
    back udp_tunnel e = ap name_of e
