-- ===== src/Dataplane/Tests.antt =====
-- A session of one client, step by step, and the theorems at concrete inputs.
use warptweet.Prelude.{
  ◌≡◌, refl, Bool, true, false, [], ◌∷◌, ◌++◌, none, some, Bytes, IsByte, All, length, codes, pos,
  arith, equal,
}
use warptweet.Wire.{
  be32, be32_value, append_string, consume_string, ssh_string, consume_ssh_string, consume_uint32,
  consume_bool, tagged_blob,
}
use warptweet.Dataplane.Policy
use warptweet.Dataplane.Connection
use warptweet.Dataplane.Kex
use warptweet.Dataplane.Kex.{composite_algorithm}
use warptweet.Dataplane.Auth
use warptweet.Dataplane.Auth.{handle_userauth}
use warptweet.Dataplane.Channels
use warptweet.Dataplane.Serve
use warptweet.Dataplane.Good.{Good}
use warptweet.Dataplane.Good.Serving.{Serving-Good}
use warptweet.Dataplane.Limiter
use warptweet.Dataplane.Limiter.Held.{Limited, Using-Limited}
use warptweet.Dataplane.Login.{Signed, handle_userauth-Signed}
use warptweet.Dataplane.Derive.{length-derive_one}
use warptweet.Dataplane.Windows.{Fitting, chunk_size-Fitting}

abbrev target : Policy.AddrPort
target = record { address = 10 ∷ 0 ∷ 0 ∷ 1 ∷ []; port = 443 }

abbrev policy : Policy.Policy
policy = record {
  key_exchange_algorithm = codes "k";
  authentication_key_type = codes "h";
  cipher = codes "c";
  target = target;
  management = record { address = 127 ∷ 0 ∷ 0 ∷ 1 ∷ []; port = 8022 };
}

abbrev client_key : Bytes
client_key = 1 ∷ 2 ∷ 3 ∷ []

abbrev answers : Connection.Answers
answers = record {
  deliver = λ payload. some (length payload);
  server_kexinit = some (20 ∷ []);
  encapsulate = λ _. some (7 ∷ [], 8 ∷ []);
  host_public = some (9 ∷ []);
  sign = λ _. some (6 ∷ []);
  sha256 = λ _. codes "0123456789abcdef0123456789abcdef";
  authorized_keys = some (client_key ∷ []);
  verify = λ key _ _. equal key client_key;
  new_connection_id = some (codes "id");
  register = some true;
  parse_addr = λ text. some (10 ∷ 0 ∷ 0 ∷ 1 ∷ []);
  dial = λ _. none;
  quoted = λ name. name;
  addr_port_text = λ _. [];
  backend_write = λ _. true;
}

abbrev is_continue : Connection.Reply → Bool
is_continue (Connection.continue _) = true
is_continue (Connection.failed _ _) = false

continues :
    (r : Connection.Reply) → is_continue r ≡ true → r ≡ Connection.continue (Connection.left_by r)
continues (Connection.continue c) h = refl
continues (Connection.failed e c) h = cc

abbrev opening : Connection.Connection
opening = Serve.new_connection 0 (pos 2) (codes "s") (codes "c") (20 ∷ [])

-- The client's payloads: KEXINIT, its public value, NEWKEYS, a signed request, and a channel.
abbrev kexinit_payload : Bytes
kexinit_payload =
    20 ∷ 0 ∷ 0 ∷ 0 ∷ 0 ∷ 0 ∷ 0 ∷ 0 ∷ 0 ∷ 0 ∷ 0 ∷ 0 ∷ 0 ∷ 0 ∷ 0 ∷ 0 ∷ 0 ∷ 0 ∷ 0 ∷ 0 ∷ 1 ∷ b'k' ∷ 0
    ∷ 0 ∷ 0 ∷ 1 ∷ b'h' ∷ 0 ∷ 0 ∷ 0 ∷ 1 ∷ b'c' ∷ 0 ∷ 0 ∷ 0 ∷ 1 ∷ b'c' ∷ []

abbrev ecdh_payload : Bytes
ecdh_payload = 30 ∷ 0 ∷ 0 ∷ 0 ∷ 1 ∷ 5 ∷ []

abbrev step : Bytes → Connection.Connection → Connection.Connection
step payload c = Connection.left_by (Serve.receive answers policy payload c)

abbrev greeted : Connection.Connection
greeted = Connection.left_by (Connection.write answers opening (20 ∷ []))

greeted-Serving : Serve.Serving policy greeted
unfolding be32 be32_value append_string consume_string ssh_string consume_ssh_string consume_uint32
    consume_bool tagged_blob Policy.same_addr_port Policy.allow_channel_type
    Policy.allow_global_request Policy.allow_direct_tcpip Policy.split_names Policy.any_equal
    Policy.name_list_contains Policy.kex_body Policy.kex_init_hash Policy.client_offers_strict_kex
    Policy.client_offers_pinned_algorithms Connection.check_ssh_seq Connection.write_frame
    Connection.needs_rekey Connection.start_rekey Connection.write Connection.marshal_disconnect
    Connection.disconnect Kex.handle_kex_init Kex.handle_new_keys Kex.exchange_hash Kex.derive_more
    Kex.derive_one Kex.install_keys Kex.derive_and_switch Kex.sign_and_reply Kex.exchange
    Kex.handle_kex Auth.handle_service Auth.known_client Auth.tagged_raw Auth.signed_request
    Auth.register_session Auth.authenticate Auth.check_signature Auth.check_key Auth.handle_userauth
    Auth.handle_global Channels.find_channel Channels.delete_channel Channels.update_channel
    Channels.close_found Channels.close_channel Channels.channel_open_failure
    Channels.confirm_or_close Channels.dialled Channels.open_channel Channels.open_to_host
    Channels.open_direct Channels.handle_channel_open Channels.adjust_window Channels.to_backend
    Channels.receive_data Channels.handle_channel_data Channels.adjust_found
    Channels.handle_window_adjust Channels.handle_channel_eof Channels.handle_channel_close
    Channels.refuse_request Channels.handle_channel_request Channels.chunk_size Channels.send_chunk
    Channels.send_turn Channels.teardown_channels Serve.message_of Serve.decimal_byte Serve.dispatch
    Serve.dispatch_secure Serve.handle Serve.handle_payload Serve.receive Serve.new_connection
    Serve.backend_end equal
greeted-Serving = Serve.opened answers 0 (pos 2) (codes "s") (codes "c") (20 ∷ []) greeted refl

step-Serving :
    (payload : Bytes) (c : Connection.Connection)
    → All IsByte payload
    → Serve.Serving policy c
    → is_continue (Serve.receive answers policy payload c) ≡ true
    → Serve.Serving policy (step payload c)
step-Serving payload c bytes s h =
    Serve.received answers payload c (step payload c) bytes s (continues _ h)

abbrev negotiated : Connection.Connection
negotiated = step kexinit_payload greeted

negotiated-Serving : Serve.Serving policy negotiated
unfolding be32 be32_value append_string consume_string ssh_string consume_ssh_string consume_uint32
    consume_bool tagged_blob Policy.same_addr_port Policy.allow_channel_type
    Policy.allow_global_request Policy.allow_direct_tcpip Policy.split_names Policy.any_equal
    Policy.name_list_contains Policy.kex_body Policy.kex_init_hash Policy.client_offers_strict_kex
    Policy.client_offers_pinned_algorithms Connection.check_ssh_seq Connection.write_frame
    Connection.needs_rekey Connection.start_rekey Connection.write Connection.marshal_disconnect
    Connection.disconnect Kex.handle_kex_init Kex.handle_new_keys Kex.exchange_hash Kex.derive_more
    Kex.derive_one Kex.install_keys Kex.derive_and_switch Kex.sign_and_reply Kex.exchange
    Kex.handle_kex Auth.handle_service Auth.known_client Auth.tagged_raw Auth.signed_request
    Auth.register_session Auth.authenticate Auth.check_signature Auth.check_key Auth.handle_userauth
    Auth.handle_global Channels.find_channel Channels.delete_channel Channels.update_channel
    Channels.close_found Channels.close_channel Channels.channel_open_failure
    Channels.confirm_or_close Channels.dialled Channels.open_channel Channels.open_to_host
    Channels.open_direct Channels.handle_channel_open Channels.adjust_window Channels.to_backend
    Channels.receive_data Channels.handle_channel_data Channels.adjust_found
    Channels.handle_window_adjust Channels.handle_channel_eof Channels.handle_channel_close
    Channels.refuse_request Channels.handle_channel_request Channels.chunk_size Channels.send_chunk
    Channels.send_turn Channels.teardown_channels Serve.message_of Serve.decimal_byte Serve.dispatch
    Serve.dispatch_secure Serve.handle Serve.handle_payload Serve.receive Serve.new_connection
    Serve.backend_end equal
negotiated-Serving = step-Serving kexinit_payload greeted (omega arith) greeted-Serving refl

-- a short string on the wire
abbrev str : Bytes → Bytes
str bytes = 0 ∷ 0 ∷ 0 ∷ length bytes ∷ bytes

abbrev key_blob : Bytes
key_blob = str composite_algorithm ++ str client_key

abbrev userauth_payload : Bytes
userauth_payload =
    50 ∷ str (codes "warptweet")
    ++ str (codes "ssh-connection")
    ++ str (codes "publickey")
    ++ 1 ∷ str composite_algorithm
    ++ str key_blob
    ++ str (str composite_algorithm ++ str (4 ∷ 4 ∷ []))

abbrev open_payload : Bytes
open_payload =
    90 ∷ str (codes "direct-tcpip")
    ++ (0 ∷ 0 ∷ 0 ∷ 7 ∷ [])
    ++ (0 ∷ 0 ∷ 1 ∷ 0 ∷ [])
    ++ (0 ∷ 0 ∷ 0 ∷ 64 ∷ [])
    ++ str (codes "10.0.0.1")
    ++ (0 ∷ 0 ∷ 1 ∷ 187 ∷ [])
    ++ str (codes "::1")
    ++ (0 ∷ 0 ∷ 0 ∷ 9 ∷ [])

abbrev keyed : Connection.Connection
keyed = step ecdh_payload negotiated

abbrev sealed : Connection.Connection
sealed = step (21 ∷ []) keyed

abbrev logged_in : Connection.Connection
logged_in = step userauth_payload sealed

abbrev opened_channel : Connection.Connection
opened_channel = step open_payload logged_in

opened_channel-Serving : Serve.Serving policy opened_channel
unfolding be32 be32_value append_string consume_string ssh_string consume_ssh_string consume_uint32
    consume_bool tagged_blob Policy.same_addr_port Policy.allow_channel_type
    Policy.allow_global_request Policy.allow_direct_tcpip Policy.split_names Policy.any_equal
    Policy.name_list_contains Policy.kex_body Policy.kex_init_hash Policy.client_offers_strict_kex
    Policy.client_offers_pinned_algorithms Connection.check_ssh_seq Connection.write_frame
    Connection.needs_rekey Connection.start_rekey Connection.write Connection.marshal_disconnect
    Connection.disconnect Kex.handle_kex_init Kex.handle_new_keys Kex.exchange_hash Kex.derive_more
    Kex.derive_one Kex.install_keys Kex.derive_and_switch Kex.sign_and_reply Kex.exchange
    Kex.handle_kex Auth.handle_service Auth.known_client Auth.tagged_raw Auth.signed_request
    Auth.register_session Auth.authenticate Auth.check_signature Auth.check_key Auth.handle_userauth
    Auth.handle_global Channels.find_channel Channels.delete_channel Channels.update_channel
    Channels.close_found Channels.close_channel Channels.channel_open_failure
    Channels.confirm_or_close Channels.dialled Channels.open_channel Channels.open_to_host
    Channels.open_direct Channels.handle_channel_open Channels.adjust_window Channels.to_backend
    Channels.receive_data Channels.handle_channel_data Channels.adjust_found
    Channels.handle_window_adjust Channels.handle_channel_eof Channels.handle_channel_close
    Channels.refuse_request Channels.handle_channel_request Channels.chunk_size Channels.send_chunk
    Channels.send_turn Channels.teardown_channels Serve.message_of Serve.decimal_byte Serve.dispatch
    Serve.dispatch_secure Serve.handle Serve.handle_payload Serve.receive Serve.new_connection
    Serve.backend_end equal
opened_channel-Serving =
    step-Serving open_payload logged_in (omega arith)
      (step-Serving userauth_payload sealed (omega arith)
        (step-Serving (21 ∷ []) keyed (omega arith)
          (step-Serving ecdh_payload negotiated (omega arith) negotiated-Serving refl) refl)
        refl)
      refl

one_channel : length opened_channel.channels ≡ 1
unfolding be32 be32_value append_string consume_string ssh_string consume_ssh_string consume_uint32
    consume_bool tagged_blob Policy.same_addr_port Policy.allow_channel_type
    Policy.allow_global_request Policy.allow_direct_tcpip Policy.split_names Policy.any_equal
    Policy.name_list_contains Policy.kex_body Policy.kex_init_hash Policy.client_offers_strict_kex
    Policy.client_offers_pinned_algorithms Connection.check_ssh_seq Connection.write_frame
    Connection.needs_rekey Connection.start_rekey Connection.write Connection.marshal_disconnect
    Connection.disconnect Kex.handle_kex_init Kex.handle_new_keys Kex.exchange_hash Kex.derive_more
    Kex.derive_one Kex.install_keys Kex.derive_and_switch Kex.sign_and_reply Kex.exchange
    Kex.handle_kex Auth.handle_service Auth.known_client Auth.tagged_raw Auth.signed_request
    Auth.register_session Auth.authenticate Auth.check_signature Auth.check_key Auth.handle_userauth
    Auth.handle_global Channels.find_channel Channels.delete_channel Channels.update_channel
    Channels.close_found Channels.close_channel Channels.channel_open_failure
    Channels.confirm_or_close Channels.dialled Channels.open_channel Channels.open_to_host
    Channels.open_direct Channels.handle_channel_open Channels.adjust_window Channels.to_backend
    Channels.receive_data Channels.handle_channel_data Channels.adjust_found
    Channels.handle_window_adjust Channels.handle_channel_eof Channels.handle_channel_close
    Channels.refuse_request Channels.handle_channel_request Channels.chunk_size Channels.send_chunk
    Channels.send_turn Channels.teardown_channels Serve.message_of Serve.decimal_byte Serve.dispatch
    Serve.dispatch_secure Serve.handle Serve.handle_payload Serve.receive Serve.new_connection
    Serve.backend_end equal
one_channel = refl

Serving-Good_example : Good policy opened_channel
Serving-Good_example = Serving-Good policy opened_channel opened_channel-Serving

login_authed : (Connection.left_by (handle_userauth answers userauth_payload sealed)).authed ≡ true
unfolding be32 be32_value append_string consume_string ssh_string consume_ssh_string consume_uint32
    consume_bool tagged_blob Policy.same_addr_port Policy.allow_channel_type
    Policy.allow_global_request Policy.allow_direct_tcpip Policy.split_names Policy.any_equal
    Policy.name_list_contains Policy.kex_body Policy.kex_init_hash Policy.client_offers_strict_kex
    Policy.client_offers_pinned_algorithms Connection.check_ssh_seq Connection.write_frame
    Connection.needs_rekey Connection.start_rekey Connection.write Connection.marshal_disconnect
    Connection.disconnect Kex.handle_kex_init Kex.handle_new_keys Kex.exchange_hash Kex.derive_more
    Kex.derive_one Kex.install_keys Kex.derive_and_switch Kex.sign_and_reply Kex.exchange
    Kex.handle_kex Auth.handle_service Auth.known_client Auth.tagged_raw Auth.signed_request
    Auth.register_session Auth.authenticate Auth.check_signature Auth.check_key Auth.handle_userauth
    Auth.handle_global Channels.find_channel Channels.delete_channel Channels.update_channel
    Channels.close_found Channels.close_channel Channels.channel_open_failure
    Channels.confirm_or_close Channels.dialled Channels.open_channel Channels.open_to_host
    Channels.open_direct Channels.handle_channel_open Channels.adjust_window Channels.to_backend
    Channels.receive_data Channels.handle_channel_data Channels.adjust_found
    Channels.handle_window_adjust Channels.handle_channel_eof Channels.handle_channel_close
    Channels.refuse_request Channels.handle_channel_request Channels.chunk_size Channels.send_chunk
    Channels.send_turn Channels.teardown_channels Serve.message_of Serve.decimal_byte Serve.dispatch
    Serve.dispatch_secure Serve.handle Serve.handle_payload Serve.receive Serve.new_connection
    Serve.backend_end equal
login_authed = refl

login_unauthed : sealed.authed ≡ false
unfolding be32 be32_value append_string consume_string ssh_string consume_ssh_string consume_uint32
    consume_bool tagged_blob Policy.same_addr_port Policy.allow_channel_type
    Policy.allow_global_request Policy.allow_direct_tcpip Policy.split_names Policy.any_equal
    Policy.name_list_contains Policy.kex_body Policy.kex_init_hash Policy.client_offers_strict_kex
    Policy.client_offers_pinned_algorithms Connection.check_ssh_seq Connection.write_frame
    Connection.needs_rekey Connection.start_rekey Connection.write Connection.marshal_disconnect
    Connection.disconnect Kex.handle_kex_init Kex.handle_new_keys Kex.exchange_hash Kex.derive_more
    Kex.derive_one Kex.install_keys Kex.derive_and_switch Kex.sign_and_reply Kex.exchange
    Kex.handle_kex Auth.handle_service Auth.known_client Auth.tagged_raw Auth.signed_request
    Auth.register_session Auth.authenticate Auth.check_signature Auth.check_key Auth.handle_userauth
    Auth.handle_global Channels.find_channel Channels.delete_channel Channels.update_channel
    Channels.close_found Channels.close_channel Channels.channel_open_failure
    Channels.confirm_or_close Channels.dialled Channels.open_channel Channels.open_to_host
    Channels.open_direct Channels.handle_channel_open Channels.adjust_window Channels.to_backend
    Channels.receive_data Channels.handle_channel_data Channels.adjust_found
    Channels.handle_window_adjust Channels.handle_channel_eof Channels.handle_channel_close
    Channels.refuse_request Channels.handle_channel_request Channels.chunk_size Channels.send_chunk
    Channels.send_turn Channels.teardown_channels Serve.message_of Serve.decimal_byte Serve.dispatch
    Serve.dispatch_secure Serve.handle Serve.handle_payload Serve.receive Serve.new_connection
    Serve.backend_end equal
login_unauthed = refl

handle_userauth-Signed_example : Signed answers sealed.session_id userauth_payload
handle_userauth-Signed_example =
    handle_userauth-Signed answers userauth_payload sealed login_unauthed login_authed

length-derive_one_example :
    length (Kex.derive_one answers.sha256 (1 ∷ []) (2 ∷ []) (3 ∷ []) b'C' 64) ≡ 64
length-derive_one_example =
    length-derive_one answers.sha256 (1 ∷ []) (2 ∷ []) (3 ∷ []) b'C' 64 (λ _. omega arith)

abbrev narrow_channel : Connection.Channel
narrow_channel = Channels.new_channel 0 7 256 64 target

chunk_size-Fitting_example : Fitting narrow_channel 1000 (Channels.chunk_size narrow_channel 1000)
chunk_size-Fitting_example =
    chunk_size-Fitting narrow_channel 1000 (omega arith) (omega arith) (omega arith) (omega arith)

abbrev home : Bytes
home = codes "1.2.3.4"

abbrev empty_limiter : Limiter.SourceLimiter
empty_limiter = record { limit = pos 2; counts = none }

abbrev busy_limiter : Limiter.SourceLimiter
busy_limiter = record { limit = pos 2; counts = some (record { source = home; count = 1 } ∷ []) }

busy_limiter-Using : Limiter.Using (pos 2) busy_limiter (home ∷ [])
unfolding Limiter.acquire Limiter.acquire_in Limiter.count_of Limiter.delete
busy_limiter-Using = Limiter.acquired home empty_limiter busy_limiter [] Limiter.fresh refl

Using-Limited_example : Limited 1 busy_limiter (home ∷ [])
Using-Limited_example = Using-Limited 1 busy_limiter (home ∷ []) busy_limiter-Using
