-- ===== src/Fcgi.antt =====
-- internal/fcgi/socket.go: the socket that the children of an fcgi-program share, and the quoting
-- of their command lines. `net.Listen`, `os.Chmod`, `os.Chown`, the user database, `strconv.Atoi`
-- and `File` of a listener are the parameters of `Os`; the mutex makes each method one step.
pub mod Address
pub mod Counting
pub mod Quoting
use gosupervisor.Prelude.{
  ℕ, zero, suc, ◌+◌, ◌-◌, Bool, true, false, ◌&&◌, ◌||◌, not, List, [], ◌∷◌, ◌++◌, map, Option,
  none, some, ltb, ◌==◌, if◌then◌else◌, Text, codes, text_eq, has_prefix, contains_any, length,
  drop,
}

pub data SocketError : Type 0 where
  invalid_url listen_failed chmod_failed chown_failed not_listening no_file : SocketError

pub record Os : Type 0 where
  pub net_listen : (network address : Text) → Bool
  pub chmod : Text → ℕ → Bool
  pub chown : Text → (uid gid : ℕ) → Bool
  -- The id of a user or a group, as the text that the database holds.
  pub lookup_user : Text → Option Text
  pub lookup_group : Text → Option Text
  -- The value that `strconv.Atoi` returns, which is 0 beside a syntax error.
  pub atoi : Text → ℕ
  pub listener_file : (network address : Text) → Bool

pub record SocketManager : Type 0 where
  -- Whether `listener` is not nil.
  pub listening : Bool
  pub socket_addr : Text
  pub socket_mode : ℕ
  pub socket_owner : Text
  pub network : Text
  pub address : Text
  pub ref_count : ℕ
  pub closed : Bool

unfoldable pub new_socket_manager : Text → ℕ → Text → SocketManager
new_socket_manager addr mode owner = record {
  listening = false;
  socket_addr = addr;
  socket_mode = mode;
  socket_owner = owner;
  network = [];
  address = [];
  ref_count = 0;
  closed = false;
}

abbrev pub unix_prefix : Text
unix_prefix = codes "unix://"

abbrev pub tcp_prefix : Text
tcp_prefix = codes "tcp://"

unfoldable pub parse_socket_addr : Text → Option (Text × Text)
parse_socket_addr addr =
    if has_prefix addr unix_prefix
    then some (codes "unix", drop (length unix_prefix) addr)
    else if has_prefix addr tcp_prefix
    then some (codes "tcp", drop (length tcp_prefix) addr)
    else none

-- `strings.SplitN(s, ":", 2)`: the text before the first colon, and what follows it, if there is
-- one.
unfoldable pub split_colon : Text → Text × Option Text
split_colon [] = ([], none)
split_colon (c ∷ s) =
    let (user, group) = split_colon s in if c == b':' then ([], some s) else (c ∷ user, group)

module _ (os : Os) where
  -- A name that the database does not know is read as a number.
  unfoldable pub id_of : (Text → Option Text) → Text → ℕ
  id_of find name = elim (find name) [ none ↦ os.atoi name | some id ↦ os.atoi id ]

  unfoldable pub owner_ids : Text → ℕ × ℕ
  unfolding id_of split_colon
  owner_ids owner =
      let (user, group) = split_colon owner in
      (id_of os.lookup_user user, elim group [ none ↦ 0 | some g ↦ id_of os.lookup_group g ])

  -- The part of `Listen` that follows the mode.
  unfoldable pub apply_owner : SocketManager → SocketManager × Option SocketError
  unfolding owner_ids
  apply_owner sm =
      let (uid, gid) = owner_ids sm.socket_owner in
      if text_eq sm.network (codes "unix")
        && not (text_eq sm.socket_owner [])
        && not (uid == 0 && gid == 0)
        && not (os.chown sm.address uid gid)
      then (record sm { listening = false }, some chown_failed)
      else (sm, none)

  unfoldable pub apply_mode : SocketManager → SocketManager × Option SocketError
  unfolding apply_owner
  apply_mode sm =
      if text_eq sm.network (codes "unix")
        && ltb 0 sm.socket_mode
        && not (os.chmod sm.address sm.socket_mode)
      then (record sm { listening = false }, some chmod_failed)
      else apply_owner sm

  unfoldable pub listen : SocketManager → SocketManager × Option SocketError
  unfolding apply_mode parse_socket_addr
  listen sm = elim (parse_socket_addr sm.socket_addr) [
    | none ↦ (sm, some invalid_url)
    | some (network, address) ↦
        if os.net_listen network address
        then apply_mode (record sm { network = network; address = address; listening = true })
        else (sm, some listen_failed)
  ]

-- The bytes that make `shellEscape` quote: `"'\$` and a back quote, `!*?[](){}|&;<>`, blanks.
abbrev pub special : Text
special =
    34 ∷ 39 ∷ 92 ∷ 36 ∷ 96 ∷ 33 ∷ 42 ∷ 63 ∷ 91 ∷ 93 ∷ 40 ∷ 41 ∷ 123 ∷ 125 ∷ 124 ∷ 38 ∷ 59 ∷ 60 ∷ 62
    ∷ 32 ∷ 9 ∷ 10 ∷ []

-- `strings.ReplaceAll(s, "'", "'\\''")`
unfoldable pub replace_quotes : Text → Text
replace_quotes [] = []
replace_quotes (c ∷ s) =
    if c == 39 then 39 ∷ 92 ∷ 39 ∷ 39 ∷ replace_quotes s else c ∷ replace_quotes s

unfoldable pub shell_escape : Text → Text
unfolding replace_quotes contains_any
shell_escape s = if contains_any s special then 39 ∷ (replace_quotes s ++ 39 ∷ []) else s

unfoldable pub quote_args : List Text → List Text
unfolding shell_escape
quote_args args = map shell_escape args

-- `strings.Join(args, " ")`
unfoldable pub join_blank : List Text → Text
join_blank [] = []
join_blank (s ∷ []) = s
join_blank (s ∷ t ∷ ts) = s ++ 32 ∷ join_blank (t ∷ ts)

-- The new command line of the child: a shell that moves the socket to fd 0 and then runs it.
unfoldable pub wrap_command : List Text → List Text
unfolding quote_args join_blank
wrap_command args =
    codes "/bin/sh"
    ∷ codes "-c"
    ∷ (codes "exec 0<&3 3<&-; exec " ++ join_blank (quote_args args))
    ∷ []

unfoldable pub attach :
    Os → List Text → SocketManager → SocketManager × Option SocketError × List Text
unfolding wrap_command
attach os args sm =
    if sm.closed || not sm.listening
    then (sm, some not_listening, args)
    else if not (os.listener_file sm.network sm.address)
    then (sm, some no_file, args)
    else (record sm { ref_count = sm.ref_count + 1 }, none, wrap_command args)

unfoldable pub detach : SocketManager → SocketManager × Bool
detach sm =
    if sm.ref_count == 0
    then (sm, false)
    else (record sm { ref_count = sm.ref_count - 1 }, sm.ref_count - 1 == 0)

unfoldable pub close : SocketManager → SocketManager
close sm = if sm.closed then sm else record sm { closed = true; listening = false }
