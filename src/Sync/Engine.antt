-- ===== src/Sync/Engine.antt =====
-- internal/sync/engine.go: what a host announces and what it does with a packet. The socket, the
-- multicast set-up and logging are left out; what is sent and what is written to the greylister is
-- returned. The MAC and netip are parameters. A uint64 bitmap is the list of its 64 bits, the lowest
-- first; of several peers heard from at the same time the first of the table is evicted.
pub mod Replay
use greyd_v.Base.{
  ℕ, zero, suc, ◌+◌, ◌-◌, ◌%◌, ◌^◌, ◌==◌, Bytes, bytes_eq, if◌then◌else◌, Bool, true, false, not,
  ◌&&◌, ◌||◌, ltb, leb, List, [], ◌∷◌, ◌++◌, Option, none, some, length, take, map, replicate,
  get_or,
}
use greyd_v.Result.{Result, ok, err}
use greyd_v.Core.{Tuple}
use greyd_v.Ip.{Addr, unmap}
use greyd_v.Ipc.Writer.{write_grey_from_sync, write_addr}
use greyd_v.Sync.Wire.{SyncEntry, Packet, encode_grey, encode_addr, decode_packet}

-- replayState
pub record Window : Type 0 where
  pub hi : ℕ
  pub bits : List Bool
  pub seen : Bool
  pub last : ℕ

abbrev pub no_bits : List Bool
no_bits = replicate 64 false

-- bitmap |= 1 << k
unfoldable pub set_bit : ℕ → List Bool → List Bool
set_bit k [] = []
set_bit zero (b ∷ bs) = true ∷ bs
set_bit (suc k) (b ∷ bs) = b ∷ set_bit k bs

-- bitmap <<= n
unfoldable pub shift_left : ℕ → List Bool → List Bool
shift_left n bits = take 64 (replicate n false ++ bits)

abbrev pub start_at : ℕ → Window → Window
start_at counter w = record w { seen = true; hi = counter; bits = set_bit 0 no_bits }

abbrev pub move_to : ℕ → Window → Window
move_to counter w = record w {
  hi = counter;
  bits =
      set_bit 0 (if leb 64 (counter - w.hi) then no_bits else shift_left (counter - w.hi) w.bits);
}

-- The peer has restarted: a small counter, below the window.
unfoldable pub is_restart : ℕ → ℕ → Window → Bool
is_restart size counter w =
    w.seen && (not (ltb w.hi counter) && (not (ltb (w.hi - counter) size) && ltb counter size))

-- The switch of `acceptCounter`, for a window of at most 64.
unfoldable pub accept : ℕ → ℕ → Window → Bool × Window
accept size counter w =
    if not w.seen
    then (true, start_at counter w)
    else if ltb w.hi counter
    then (true, move_to counter w)
    else if ltb (w.hi - counter) size
    then (if get_or w.bits (w.hi - counter) false
        then (false, w)
        else (true, record w { bits = set_bit (w.hi - counter) w.bits }))
    else if ltb counter size
    then (true, start_at counter w)
    else (false, w)

pub record Engine : Type 0 where
  pub replay_window : ℕ
  pub counter : ℕ
  pub hosts : List Bytes
  pub has_conn : Bool
  -- The multicast destination, if multicast is sent, and the own address on its interface.
  pub sync_out : Option Bytes
  pub sync_in : Option Addr
  pub grey_ok : Bool
  pub replay : List (Addr × Window)

abbrev pub max_replay_peers : ℕ
max_replay_peers = 1024

abbrev same_addr : Addr → Addr → Bool
same_addr a b = bytes_eq a.octets b.octets

abbrev pub new_window : Window
new_window = record { hi = 0; bits = no_bits; seen = false; last = 0 }

unfoldable pub window_of : Addr → List (Addr × Window) → Option Window
window_of a [] = none
window_of a ((b, w) ∷ ws) = let rest = window_of a ws in if same_addr a b then some w else rest

unfoldable pub put_window : Addr → Window → List (Addr × Window) → List (Addr × Window)
put_window a w [] = (a, w) ∷ []
put_window a w ((b, v) ∷ ws) =
    let rest = put_window a w ws in if same_addr a b then (b, w) ∷ ws else (b, v) ∷ rest

-- The least recent time of the table.
oldest : ℕ → List (Addr × Window) → ℕ
oldest when [] = when
oldest when ((a, w) ∷ ws) = oldest (if ltb w.last when then w.last else when) ws

drop_at : ℕ → List (Addr × Window) → List (Addr × Window)
drop_at when [] = []
drop_at when ((a, w) ∷ ws) =
    let rest = drop_at when ws in if w.last == when then ws else (a, w) ∷ rest

-- `evictReplayPeer`
unfoldable pub evict : List (Addr × Window) → List (Addr × Window)
unfolding oldest drop_at
evict [] = []
evict ((a, w) ∷ ws) = drop_at (oldest w.last ws) ((a, w) ∷ ws)

-- The peer's window, and the table with room for it.
peer_window : Option Window → List (Addr × Window) → Window × List (Addr × Window)
peer_window (some w) table = (w, table)
peer_window none table =
    (new_window, if leb max_replay_peers (length table) then evict table else table)

accept_from : ℕ → Addr → ℕ → ℕ → Engine → Bool × Engine
unfolding peer_window
accept_from size peer counter now e =
    let found = peer_window (window_of peer e.replay) e.replay in
    let r = accept size counter (record found.0 { last = now }) in
    (r.0, record e { replay = put_window peer r.1 found.1 })

-- `acceptCounter`, at a time.
unfoldable pub accept_counter : Addr → ℕ → ℕ → Engine → Bool × Engine
unfolding accept_from
accept_counter from counter now e =
    let size = e.replay_window % 2 ^ 32 in
    if size == 0
    then (true, e)
    else accept_from (if ltb 64 size then 64 else size) (unmap from) counter now e

is_own : Option Addr → Addr → Bool
is_own none from = false
is_own (some a) from = same_addr from a

module _ (hmac : Bytes → Bytes → Bytes) (key : Bytes) (parse_addr : Bytes → Option Addr)
    (addr_text : Addr → Bytes) where
  -- The message to the greylister for one entry of a packet from a source.
  unfoldable pub entry_message : Bytes → SyncEntry → Bytes
  entry_message source e =
      if e.typ == 1
      then write_grey_from_sync (addr_text e.ip) e.helo e.from e.to
      else if e.typ == 2 || e.typ == 4
      then write_addr 3 (addr_text e.ip) source e.expire e.is_delete
      else write_addr 2 (addr_text e.ip) source e.expire e.is_delete

  accepted_messages : Addr → Packet → Bool × Engine → Engine × List Bytes
  unfolding entry_message
  accepted_messages from p (false, e) = (e, [])
  accepted_messages from p (true, e) =
      (e, if e.grey_ok then map (entry_message (addr_text from)) p.entries else [])

  received : Addr → ℕ → Engine → Result Packet → Engine × List Bytes
  unfolding accepted_messages
  received from now e (err x) = (e, [])
  received from now e (ok p) = accepted_messages from p (accept_counter from p.counter now e)

  -- `Recv` of a packet, with what is written to the greylister's pipe, which takes all of it.
  unfoldable pub recv : Addr → Bytes → ℕ → Engine → Engine × List Bytes
  unfolding received is_own
  recv from pkt now e =
      if ltb (length pkt) 1 || is_own e.sync_in from
      then (e, [])
      else received from now e (decode_packet hmac key pkt)

  to_mcast : Option Bytes → Bytes → List (Bytes × Bytes)
  to_mcast none pkt = []
  to_mcast (some dst) pkt = (dst, pkt) ∷ []

  -- `send`: where the packet goes.
  unfoldable pub send : Bytes → Engine → List (Bytes × Bytes)
  unfolding to_mcast
  send pkt e = if e.has_conn then to_mcast e.sync_out pkt ++ map (λ h. (h, pkt)) e.hosts else []

  abbrev pub counted_up : Engine → Engine
  counted_up e = record e { counter = (e.counter + 1) % 2 ^ 32 }

  update_to : Tuple → ℕ → Engine → Option Addr → Engine × List (Bytes × Bytes)
  update_to t now e none = (e, [])
  update_to t now e (some ip) =
      (counted_up e, send (encode_grey hmac key e.counter ip t.helo t.from t.to (now % 2 ^ 32)) e)

  -- `Update`
  unfoldable pub announce_grey : Tuple → ℕ → Engine → Engine × List (Bytes × Bytes)
  unfolding update_to
  announce_grey t now e = update_to t now e (parse_addr t.ip)

  addr_to : ℕ → ℕ → ℕ → Engine → Option Addr → Engine × List (Bytes × Bytes)
  addr_to typ now expire e none = (e, [])
  addr_to typ now expire e (some ip) = (
    counted_up e,
    send (encode_addr hmac key e.counter typ ip (now % 2 ^ 32) (expire % 2 ^ 32)) e,
  )

  -- `sendAddr`
  unfoldable pub announce_addr : Bytes → ℕ → ℕ → ℕ → Engine → Engine × List (Bytes × Bytes)
  unfolding addr_to
  announce_addr ip now expire typ e = addr_to typ now expire e (parse_addr ip)

  -- `White` and `Trapped`
  unfoldable pub announce_white : Bytes → ℕ → ℕ → Bool → Engine → Engine × List (Bytes × Bytes)
  announce_white ip now expire del e = announce_addr ip now expire (if del then 4 else 2) e

  unfoldable pub announce_trapped : Bytes → ℕ → ℕ → Bool → Engine → Engine × List (Bytes × Bytes)
  announce_trapped ip now expire del e = announce_addr ip now expire (if del then 5 else 3) e
