-- ===== src/Config.antt =====
-- internal/config: the configuration of the two programs, its defaults, and a file without its
-- comments. The file system, the environment and the JSON decoder are a parameter, and so are the
-- constants of the package kcp.
pub mod Comments
pub mod Lines
mod Tests
use ikago.Base.{
  ℕ, ◌-◌, Bool, true, false, Bytes, List, [], ◌∷◌, ◌++◌, length, replicate, Result, ok, err, Error,
  ◌==◌, ◌>>=◌, ◌>>◌, if◌then◌else◌,
}

-- The constants of github.com/xtaci/kcp-go that the defaults are made of.
pub record KcpDefaults : Type 0 where
  pub mtu_def : ℕ
  pub wnd_snd : ℕ
  pub wnd_rcv : ℕ
  pub interval : ℕ

pub record KcpConfig : Type 0 where
  pub mtu : ℕ
  pub send_window : ℕ
  pub recv_window : ℕ
  pub data_shard : ℕ
  pub parity_shard : ℕ
  pub ack_no_delay : Bool
  pub no_delay : Bool
  pub interval : ℕ
  pub resend : ℕ
  pub nc : ℕ

unfoldable pub new_kcp_config : KcpDefaults → KcpConfig
new_kcp_config k = record {
  mtu = k.mtu_def;
  send_window = k.wnd_snd;
  recv_window = k.wnd_rcv;
  data_shard = 10;
  parity_shard = 3;
  ack_no_delay = false;
  no_delay = false;
  interval = k.interval;
  resend = 0;
  nc = 0;
}

-- `Config`: the numbers of a file may be negative in Go, its defaults are not.
pub record Config : Type 0 where
  pub listen_devs : List Bytes
  pub up_dev : Bytes
  pub gateway : Bytes
  pub mode : Bytes
  pub method : Bytes
  pub password : Bytes
  pub rule : Bool
  pub monitor : ℕ
  pub verbose : Bool
  pub log : Bytes
  pub mtu : ℕ
  pub kcp : Bool
  pub kcp_config : KcpConfig
  pub fragment : ℕ
  pub port : ℕ
  pub publish : Bytes
  pub sources : List Bytes
  pub server : Bytes
  pub destination : Bytes

-- `NewConfig`, with the modes "faketcp" and "plain".
unfoldable pub new_config : KcpDefaults → Config
unfolding new_kcp_config
new_config k = record {
  listen_devs = [];
  up_dev = [];
  gateway = [];
  mode = 102 ∷ 97 ∷ 107 ∷ 101 ∷ 116 ∷ 99 ∷ 112 ∷ [];
  method = 112 ∷ 108 ∷ 97 ∷ 105 ∷ 110 ∷ [];
  password = [];
  rule = false;
  monitor = 0;
  verbose = false;
  log = [];
  mtu = 1500;
  kcp = false;
  kcp_config = new_kcp_config k;
  fragment = 1500;
  port = 0;
  publish = [];
  sources = [];
  server = [];
  destination = [];
}

-- bytes.Split at line feeds: an empty text is one empty line.
onto : ℕ → List Bytes → List Bytes
onto b [] = (b ∷ []) ∷ []
onto b (l ∷ ls) = (b ∷ l) ∷ ls

unfoldable pub split_lines : Bytes → List Bytes
unfolding onto
split_lines [] = [] ∷ []
split_lines (b ∷ rest) =
    let lines = split_lines rest in if b == 10 then [] ∷ lines else onto b lines

-- bytes.Join with line feeds.
unfoldable pub join_lines : List Bytes → Bytes
join_lines [] = []
join_lines (l ∷ []) = l
join_lines (l ∷ m ∷ ls) = l ++ 10 ∷ join_lines (m ∷ ls)

-- `\s`: tab, line feed, form feed, carriage return and space.
unfoldable pub is_space : ℕ → Bool
is_space b =
    if b == 9
    then true
    else if b == 10
    then true
    else if b == 12
    then true
    else if b == 13
    then true
    else b == 32

-- The pattern `^\s*#`.
unfoldable pub is_comment : Bytes → Bool
unfolding is_space
is_comment [] = false
is_comment (b ∷ rest) = let after = is_comment rest in if is_space b then after else b == 35

unfoldable pub filtered : List Bytes → List Bytes
unfolding is_comment
filtered [] = []
filtered (l ∷ ls) = let rest = filtered ls in if is_comment l then rest else l ∷ rest

-- `trimComments`: its pattern is always one that regexp takes, and bytes.Replace with the count 0
-- replaces nothing.
unfoldable pub trim_comments : Bytes → Bytes
unfolding split_lines filtered join_lines
trim_comments data_bytes = join_lines (filtered (split_lines data_bytes))

-- What ParseFile calls: `stat` returns the size of a file, and `read` what a buffer of that size holds
-- of it.
pub record Outside : Type 0 where
  pub open_file : Bytes → Result (Unit {0})
  pub stat : Bytes → Result ℕ
  pub read : Bytes → Result Bytes
  pub expand_env : Bytes → Bytes
  pub unmarshal : Bytes → Config → Result Config

-- A buffer of `size` bytes, after a read into it.
unfoldable pub in_buffer : ℕ → Bytes → Bytes
in_buffer size b = b ++ replicate (size - length b) 0

unfoldable pub parse_file : Outside → KcpDefaults → Bytes → Result Config
unfolding new_config in_buffer trim_comments
parse_file w k path = do
  w.open_file path
  size ← w.stat path
  if size == 0
      then err Error.empty_file
      else (w.read path >>= λ b.
          w.unmarshal (w.expand_env (trim_comments (in_buffer size b))) (new_config k))
