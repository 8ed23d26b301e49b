-- ===== src/Tests.antt =====
-- Concrete inputs for the theorems of the other modules: a toy cipher, sessions and frames.
mod Frames
mod Sessions
mod Handshakes
mod Datagrams
mod Servers
mod Clients
mod Releases
mod Streams
mod Connections
mod Changelogs
mod Manifests
mod Ports
use usmp.Prelude.{
  ℕ, ◌+◌, ◌≡◌, ◌≤◌, refl, Bool, true, false, none, ap, [], ◌∷◌, ◌++◌, Bytes, AreBytes,
  AreBytes-append, length, take, replicate, ◌-◌, take-append, length-append, arith, zero, suc,
}
use usmp.Errors.{Result, ok}
use usmp.Types.{aes256_gcm, CipherSuite, SessionInfo}
use usmp.Crypto.Backend.{Primitives, PrimitiveLaws}
use usmp.Transport.{Transport}
use usmp.Session.{Session}
use usmp.Tcp.{StreamWriter}
use usmp.Tcp.Frames.{KeepsBytes}

-- A cipher that appends a constant tag, and a key exchange with one outcome.
abbrev pub toy : Primitives
toy = record {
  new_cipher = λ suite key. ok tt;
  aead_encrypt = λ suite key nonce plaintext aad. ok (plaintext ++ replicate 16 0);
  aead_decrypt = λ suite key nonce ct_tag aad. ok (take (length ct_tag - 16) ct_tag);
  hkdf = λ n salt info secret. replicate n 7;
  from_public_bytes = λ bytes. ok tt;
  exchange = λ a b. ok (replicate 32 1);
  public_key = λ a. replicate 32 9;
  hmac_sha256 = λ key bytes. replicate 32 5;
}

length-replicate : (n x : ℕ) → length (replicate n x) ≡ n
length-replicate zero x = refl
length-replicate (suc n) x = omega (arith, length-replicate n x)

unsealed : (xs : Bytes) → take (length (xs ++ replicate 16 0) - 16) (xs ++ replicate 16 0) ≡ xs
unsealed xs =
    take-append xs (replicate 16 0) (length (xs ++ replicate 16 0) - 16)
      (omega (arith, length-append {0} xs (replicate 16 0)))

pub toy_laws : PrimitiveLaws toy
toy_laws = record {
  cipher_of_32 = λ suite key h. refl;
  seal = λ suite key nonce plaintext aad hk hn. record {
    ct_tag = plaintext ++ replicate 16 0;
    encrypted = refl;
    decrypted = ap ok (unsealed plaintext);
    size = length-append {0} plaintext (replicate 16 0);
    bytes = λ b. AreBytes-append plaintext (replicate 16 0) b (omega arith);
  };
  length-hkdf = λ n salt info secret h. length-replicate n 7;
  exchange_comm = λ a b. refl;
  public_key_lem = λ a. (refl, refl);
  length-hmac = λ key bytes. refl;
  bytes-hmac = λ key bytes. omega arith;
  bytes-public = λ a. omega arith;
}

-- The two ends of a new session.
abbrev pub client_info : SessionInfo
client_info = record {
  device_id = replicate 6 2;
  session_id = replicate 16 3;
  tx_key = replicate 32 4;
  rx_key = replicate 32 5;
  tx_seq = 0;
  rx_seq = 0;
  rx_window_bitmap = 0;
  cipher_suite = aes256_gcm;
}

abbrev pub server_info : SessionInfo
server_info = record client_info { tx_key = replicate 32 5; rx_key = replicate 32 4 }

abbrev pub session_of : {T : Type 0} → SessionInfo → T → Session T
session_of info t = record {
  info = info;
  recv_timeout = none;
  last_recv = 0;
  closed = false;
  transport = t;
}

-- A transport with no state.
abbrev pub null_transport : Bool → Transport Unit
null_transport is_reliable = record {
  is_reliable = is_reliable;
  write_frame = λ type payload seq t. (ok tt, t);
  set_session_keys = λ tx rx t. t;
  confirm_authenticated = λ seq t. t;
  close = λ t. t;
}

-- A connection that keeps what is written to it.
abbrev pub pipe : StreamWriter Bytes
pipe = record { write = λ more w. w ++ more; drain = λ w. (ok tt, w); close = λ w. w }

pub pipe_keeps : KeepsBytes pipe (λ w. w)
pipe_keeps = record { write = λ more w. refl; drain = λ w. refl; drained = λ w. refl }
