-- ===== src/Wrapper.antt =====
-- src/wrapper.rs: the program that stands for `guix` and hands its substitutes to guix-p2p. A text of
-- the operating system is the list of its characters; the variables of the environment are a function.
use guix_p2p.Prelude.{
  Bool, false, ◌&&◌, ◌||◌, Option, none, some, List, [], ◌∷◌, ◌++◌, text_beq, if◌then◌else◌,
}
use guix_p2p.Crypto.{Text}
use guix_p2p.Text.{chars}

pub data WrapperProgram : Type 0 where
  guix_p2p_program : WrapperProgram
  real_guix_program : WrapperProgram

pub record WrapperExec : Type 0 where
  pub program : WrapperProgram
  pub args : List Text

pub record WrapperConfig : Type 0 where
  pub real_guix : Text
  pub guix_p2p_path : Text
  pub socket : Text

abbrev Environment : Type 0
Environment = Text → Option Text

abbrev or_else : Option Text → Text → Text
or_else none t = t
or_else (some v) t = v

-- `PathBuf::join` with a relative path: no second slash after one at the end, none after the empty path.
unfoldable pub join : Text → Text → Text
join [] name = name
join (c ∷ []) name = if text_beq (c ∷ []) (chars "/") then c ∷ name else c ∷ chars "/" ++ name
join (c ∷ d ∷ path) name = c ∷ join (d ∷ path) name

unfoldable pub cache_home : Option Text → Option Text → Text
unfolding join
cache_home (some dir) home = dir
cache_home none (some home) = join home (chars ".cache")
cache_home none none = chars "/tmp"

unfoldable pub default_socket_path : Environment → Text
unfolding cache_home join
default_socket_path env =
    join (cache_home (env (chars "XDG_CACHE_HOME")) (env (chars "HOME")))
      (chars "guix-p2p/guix-p2p.sock")

unfoldable pub from_env : Environment → WrapperConfig
unfolding default_socket_path
from_env env = record {
  real_guix = or_else (env (chars "REAL_GUIX")) (chars "/run/current-system/profile/bin/guix");
  guix_p2p_path = or_else (env (chars "GUIX_P2P_BIN")) (chars "guix-p2p");
  socket = or_else (env (chars "GUIX_P2P_SOCKET")) (default_socket_path env);
}

unfoldable pub program_path : WrapperConfig → WrapperProgram → Text
program_path w guix_p2p_program = w.guix_p2p_path
program_path w real_guix_program = w.real_guix

unfoldable pub is_relay_mode : List Text → Bool
is_relay_mode [] = false
is_relay_mode (arg ∷ args) = text_beq arg (chars "--query") || text_beq arg (chars "--substitute")

abbrev to_guix : List Text → WrapperExec
to_guix args = record { program = real_guix_program; args = args }

unfoldable pub route_invocation : List Text → Bool → Text → WrapperExec
unfolding is_relay_mode
route_invocation [] socket_exists socket = to_guix []
route_invocation (arg ∷ substitute_args) socket_exists socket =
    let relay : WrapperExec = record {
      program = guix_p2p_program;
      args = substitute_args ++ chars "--socket" ∷ socket ∷ [];
    } in
    if text_beq arg (chars "substitute") && is_relay_mode substitute_args && socket_exists
    then relay
    else to_guix (arg ∷ substitute_args)
