-- ===== src/Transport/Registry.antt =====
-- transport/__init__.py: the classes of transports and listeners by the name of their protocol, and the
-- begin of `serve` of _server.py, which looks its listener up. Names are ASCII.
use usmp.Prelude.{
  ◌+◌, ◌≡◌, refl, ap, Bool, true, false, not, ◌&&◌, Option, none, some, List, [], ◌∷◌, Bytes,
  bytes_eq, eq_of_bytes_eq, leb, if◌then◌else◌, Bool-cases, inl, inr,
}
use usmp.Prelude.Dict.{bytes_key, get, put, get-put, get-put_ne}
use usmp.Errors.{Result, ok, err, raise_if, ◌>>◌, value_error, runtime_error}

-- `name.lower()`.
unfoldable pub lower : Bytes → Bytes
lower [] = []
lower (c ∷ cs) = (if leb 65 c && leb c 90 then c + 32 else c) ∷ lower cs

-- `_transports` and `_listeners`, for classes of any kind.
pub record Registry (T L : Type 0) : Type 0 where
  pub transports : List (Bytes × T)
  pub listeners : List (Bytes × L)

abbrev pub known : {A : Type 0} → Option A → Result A
known none = err value_error
known (some a) = ok a

get-put_if :
    {A : Type 0} (name other : Bytes) (a : A) (d : List (Bytes × A))
    → known (get bytes_key other (put bytes_key name a d))
      ≡ (if bytes_eq other name then ok a else known (get bytes_key other d))
get-put_if name other a d = elim (Bool-cases (bytes_eq other name)) [
  | inl e ↦ rw e (rw (eq_of_bytes_eq other name e) (ap known (get-put bytes_key name a d)))
  | inr e ↦ rw e (ap known (get-put_ne bytes_key other name a d e))
]

module _ {T L : Type 0} where
  unfoldable pub register_transport : Bytes → T → L → Registry T L → Registry T L
  register_transport name transport_cls listener_cls r = record {
    transports = put bytes_key (lower name) transport_cls r.transports;
    listeners = put bytes_key (lower name) listener_cls r.listeners;
  }

  unfoldable pub get_transport_class : Bytes → Registry T L → Result T
  get_transport_class name r = known (get bytes_key (lower name) r.transports)

  unfoldable pub get_listener_class : Bytes → Registry T L → Result L
  get_listener_class name r = known (get bytes_key (lower name) r.listeners)

  -- `serve` before it listens, by whether a handler is registered and for which protocol.
  unfoldable pub serve_class : Bool → Bytes → Registry T L → Result L
  serve_class has_handler protocol r =
      raise_if (not has_handler) runtime_error >> get_listener_class protocol r

  -- After a registration both lookups, and `serve` with a handler, give the new classes for every
  -- spelling of the name in upper and lower case, and what they gave before for every other name;
  -- `serve` without a handler raises `RuntimeError`.
  pub register_transport_lookup :
      (name other : Bytes) (t : T) (l : L) (r : Registry T L)
      → (get_transport_class other (register_transport name t l r)
          ≡ (if bytes_eq (lower other) (lower name) then ok t else get_transport_class other r))
        × (get_listener_class other (register_transport name t l r)
            ≡ (if bytes_eq (lower other) (lower name) then ok l else get_listener_class other r))
        × (serve_class true other (register_transport name t l r)
            ≡ (if bytes_eq (lower other) (lower name) then ok l else get_listener_class other r))
        × (serve_class false other (register_transport name t l r) ≡ err runtime_error)
  unfolding register_transport get_transport_class get_listener_class serve_class
  register_transport_lookup name other t l r = (
    get-put_if (lower name) (lower other) t r.transports,
    get-put_if (lower name) (lower other) l r.listeners,
    get-put_if (lower name) (lower other) l r.listeners,
    refl,
  )
