-- ===== src/Server/Admission.antt =====
-- TCP connections of `_on_transport_connect` as they come and go, in any order.
use usmp.Prelude.{
  ◌+◌, ◌≤◌, ◌<◌, ◌≡◌, ap, none, some, List, [], ◌∷◌, ◌++◌, Bytes, bytes_eq, length, arith,
  length-append, Bool-cases, inl, inr,
}
use usmp.Prelude.Dict.{bytes_key, put}
use usmp.Server.{Limits, Counts, value_of, total, tcp_admit, release}
use usmp.Server.Counts.{
  occurs, occurs-append, Counted, empty-Counted, put-Counted, release-Counted, Counted-empty,
}

-- The counts, and the addresses of the open connections.
pub data TcpStep (limits : Limits) : Counts × List Bytes → Counts × List Bytes → Type 0 where
  admitted :
      (ip : Bytes) (counts counts' : Counts) (open_ips : List Bytes)
      → tcp_admit limits ip counts ≡ some counts'
      → TcpStep limits (counts, open_ips) (counts', ip ∷ open_ips)
  refused :
      (ip : Bytes) (counts : Counts) (open_ips : List Bytes)
      → tcp_admit limits ip counts ≡ none
      → TcpStep limits (counts, open_ips) (counts, open_ips)
  closed :
      (ip : Bytes) (counts : Counts) (before after : List Bytes)
      → TcpStep limits (counts, before ++ ip ∷ after) (release ip counts, before ++ after)

pub data TcpReach (limits : Limits) : Counts × List Bytes → Type 0 where
  start : TcpReach limits ([], [])
  next : {s t : Counts × List Bytes} → TcpReach limits s → TcpStep limits s t → TcpReach limits t

-- What holds of the server's counts.
pub record IsWithin (limits : Limits) (s : Counts × List Bytes) : Type 0 where
  pub counted : Counted s.0 s.1
  pub all : length s.1 ≤ limits.max_connections
  pub each : (ip : Bytes) → occurs ip s.1 ≤ limits.max_connections_per_ip

pub admit-inv :
    (limits : Limits) (ip : Bytes) (counts counts' : Counts)
    → tcp_admit limits ip counts ≡ some counts'
    → (total counts < limits.max_connections)
      × (value_of ip counts < limits.max_connections_per_ip)
      × (put bytes_key ip (value_of ip counts + 1) counts ≡ counts')
unfolding tcp_admit
admit-inv limits ip counts counts' h = ground arith

admit-IsWithin :
    (limits : Limits) (ip : Bytes) (counts counts' : Counts) (open_ips : List Bytes)
    → tcp_admit limits ip counts ≡ some counts'
    → IsWithin limits (counts, open_ips)
    → IsWithin limits (counts', ip ∷ open_ips)
admit-IsWithin limits ip counts counts' open_ips h v =
    let (room, each, e) = admit-inv limits ip counts counts' h in
    record {
      counted = rw (← e) (put-Counted counts open_ips ip v.counted);
      all = omega (arith, room, v.counted.sum);
      each = λ j. elim (Bool-cases (bytes_eq j ip)) [
        | inl same ↦ rw same (
            omega (
              arith,
              each,
              v.counted.exact ip,
              ap (λ k. occurs k open_ips) (bytes_key.eq_of_same j ip same),
            ))
        | inr other ↦ rw other (omega (arith, v.each j))
      ];
    }

pub TcpStep-IsWithin :
    (limits : Limits) {s t : Counts × List Bytes}
    → TcpStep limits s t
    → IsWithin limits s
    → IsWithin limits t
TcpStep-IsWithin limits (refused ip counts open_ips h) v = v
TcpStep-IsWithin limits (admitted ip counts counts' open_ips h) v =
    admit-IsWithin limits ip counts counts' open_ips h v
TcpStep-IsWithin limits (closed ip counts before after) v = record {
  counted = release-Counted counts ip before after v.counted;
  all = omega (arith, v.all, length-append {0} before (ip ∷ after), length-append {0} before after);
  each = λ j.
      omega (arith, v.each j, occurs-append j before (ip ∷ after), occurs-append j before after);
}

-- Whatever connections come and go, the counts stay within the limits.
pub reach-IsWithin :
    (limits : Limits) {s : Counts × List Bytes} → TcpReach limits s → IsWithin limits s
reach-IsWithin limits start = record {
  counted = empty-Counted;
  all = omega arith;
  each = λ ip. omega arith;
}
reach-IsWithin limits (next r step) = TcpStep-IsWithin limits step (reach-IsWithin limits r)

-- Whatever TCP connections come to a new server and go, their number stays within the global limit
-- and each address within its own; the counts are the numbers of open connections, and empty when
-- none is open.
pub tcp_slots :
    (limits : Limits) (counts : Counts) (open_ips : List Bytes)
    → TcpReach limits (counts, open_ips)
    → (total counts ≡ length open_ips)
      × (length open_ips ≤ limits.max_connections)
      × ((ip : Bytes)
          → (value_of ip counts ≡ occurs ip open_ips)
            × (occurs ip open_ips ≤ limits.max_connections_per_ip))
      × (open_ips ≡ [] → counts ≡ [])
tcp_slots limits counts open_ips r =
    let v = reach-IsWithin limits r in
    (
      v.counted.sum,
      v.all,
      λ ip. (v.counted.exact ip, v.each ip),
      λ e. Counted-empty counts (rw (← e) v.counted),
    )
