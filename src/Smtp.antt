-- ===== src/Smtp.antt =====
-- internal/smtp/conn.go and internal/smtp/state.go: one client connection and its state machine. The
-- socket, the clock, logging and the counters shared with other connections are outside; what a
-- transition reports to them is in the connection's `effects`. `strings.EqualFold` is modelled on
-- ASCII letters, which is exact for its use here: a prefix of a command's length that has a byte
-- above 127 has fewer characters than the command.
pub mod Text
pub mod Reply
pub mod Next
pub mod Proxy
pub mod Io
pub mod Invariant
pub mod Accounting
pub mod Clean
pub mod Bytewise
pub mod Replies
pub mod Proxied
pub mod Progress
pub mod Counters
pub mod Greylisted
pub mod Envelope
unfoldable pub use Text.*
use greyd_v.Base.{
  ℕ, ◌+◌, ◌≤◌, Bytes, ◌==◌, if◌then◌else◌, Bool, true, false, not, ◌&&◌, ◌||◌, ltb, List, [], ◌∷◌,
  ◌++◌, Option, none, some, codes,
}
use greyd_v.Ip.{Addr}
use greyd_v.Blacklist.{Blacklist}

-- The source's numbers for the states are in comments; they are used by two order tests.
pub data ConnState : Type 0 where
  proxy_in proxy_out banner_in banner_out : ConnState
  helo_in helo_out mail_in mail_out rcpt_in rcpt_out : ConnState
  data_in data_out message reply close : ConnState

-- StateProxyIn = -3 and so on, shifted by 3.
abbrev pub rank : ConnState → ℕ
rank proxy_in = 0
rank proxy_out = 1
rank banner_in = 2
rank banner_out = 3
rank helo_in = 4
rank helo_out = 5
rank mail_in = 6
rank mail_out = 7
rank rcpt_in = 8
rank rcpt_out = 9
rank data_in = 53
rank data_out = 63
rank message = 73
rank reply = 101
rank close = 102

-- The settings that the transitions read; `line_limit` is what `lineLimit` returns, and a nil set of
-- permitted proxies is `none`.
pub record Config : Type 0 where
  pub hostname : Bytes
  pub banner : Bytes
  pub error_code : Bytes
  pub greylist : Bool
  pub proxy_protocol : Bool
  pub grey_out : Bool
  pub stutter : ℕ
  pub grey_stutter : ℕ
  pub line_limit : ℕ
  pub permitted_proxies : Option Blacklist

-- A matched blacklist: its name and its rejection message.
pub record MatchedList : Type 0 where
  pub name : Bytes
  pub text : Bytes

pub data Effect : Type 0 where
  -- ipc.WriteGrey: destination, source, HELO, sender, recipient.
  grey_tuple : Bytes → Bytes → Bytes → Bytes → Bytes → Effect
  replied_black replied_grey : Effect
  -- `Close`: the counters lose the connection of this source, blacklisted or not.
  closed_conn : Addr → Bool → Effect
  -- `reassignSource` with the old and the new source, and the counts of headers and black clients.
  source_reassigned : Addr → Addr → Effect
  proxy_header became_black became_grey : Effect

pub record Conn : Type 0 where
  pub state : ConnState
  pub last_state : ConnState
  pub src : Addr
  pub reserved_src : Addr
  pub src_addr : Bytes
  pub dst_addr : Bytes
  pub helo : Bytes
  pub mail : Bytes
  pub rcpt : Bytes
  pub lists : List MatchedList
  pub list_summary : Bytes
  pub stutter : ℕ
  pub input : Bytes
  pub in_buf : Bytes
  pub proxy_v2 : Option Bytes
  pub out : Bytes
  pub out_pos : ℕ
  pub seen_cr : Bool
  pub bad_cmd : ℕ
  pub data_body : Bool
  pub data_lines : ℕ
  pub pending_read : Bool
  pub pending_write : Bool
  pub closed : Bool
  pub black : Bool
  pub effects : List Effect

-- MaxBadCmd
abbrev pub max_bad_cmd : ℕ
max_bad_cmd = 20

-- `setOut` queues a reply, with every line ended by CR LF.
abbrev pub set_out : Bytes → Conn → Conn
set_out s c = record c { out = crlf s; out_pos = 0; seen_cr = false; pending_write = true }

-- `setRead` prepares for a new input line.
abbrev pub set_read : Conn → Conn
set_read c = record c { input = []; pending_read = true }

-- `c.LastState = c.State; c.State = next`
abbrev pub go : ConnState → Conn → Conn
go next c = record c { last_state = c.state; state = next }

abbrev pub emit : Effect → Conn → Conn
emit e c = record c { effects = c.effects ++ e ∷ [] }

-- `Close`: a second call changes nothing.
unfoldable pub close_conn : Conn → Conn
close_conn c =
    if c.closed
    then c
    else emit (closed_conn c.reserved_src c.black)
        (record c { closed = true; lists = []; list_summary = []; out = []; out_pos = 0 })
