-- ===== src/Autoconf/Inspect.antt =====
-- The class `Inspect`: the configuration file is read at the start, and again once a minute.
use finger_move.Autoconf.Config.{Config, dispath}
use finger_move.Base.{
  Bool, List, Option, [], false, if◌then◌else◌, keep, length, ltb, none, some, true, ◌&&◌, ◌∷◌,
}
use finger_move.Clib.{Bytes, c_str, codes, is_space, push}
use finger_move.World.{Cmd, done, fopen_rb, get_config, max_name_len, or_fault, pure, ◌>>=◌}

abbrev pub conf_name : Bytes
conf_name = codes "../conf"

-- The pieces between white space, empty ones too.
unfoldable pub runs : Bytes → List Bytes
runs [] = [] ∷ []
runs (c ∷ s) = let rest = runs s in if is_space c then [] ∷ rest else push c rest

abbrev pub is_word : Bytes → Bool
is_word [] = false
is_word (c ∷ s) = true

-- What "%s" reads from a stream, one conversion after the other.
unfoldable pub words : Bytes → List Bytes
unfolding runs
words s = keep is_word (runs s)

abbrev fits : Bytes → Bool
fits t = ltb (length t) max_name_len

-- `while (-1 != fscanf(fp, "%s%s", name, value)) dispath(name, value)`: `value` is what its buffer
-- holds. At an odd last word fscanf converts one item, and the body runs with the old value.
-- Both are C strings when they are used: what follows a NUL is lost.
-- The result is the configuration and what `value` holds in the end; `none` is an overrun.
unfoldable pub load : Bytes → List Bytes → Config → Option (Config × Bytes)
unfolding dispath c_str
load value [] c = some (c, value)
load value (k ∷ []) c = if fits k then some (dispath (c_str k) (c_str value) c, value) else none
load value (k ∷ v ∷ ts) c =
    let rest = load v ts (dispath (c_str k) (c_str v) c) in if fits k && fits v then rest else none

-- `startInspect`, up to the creation of the thread; true if the thread is created. `value` is what
-- the buffer on the stack happens to hold.
unfoldable pub start_inspect : Bytes → Cmd Bool
unfolding fopen_rb words load
start_inspect value = do
  fp ← fopen_rb conf_name
  elim fp [
    | none ↦ pure false
    | some s ↦ do
      old ← get_config
      (c, _) ← or_fault (load value (words s) old)
      λ w. done true (record w { config = c })
  ]

-- The object that holds the flag, new, and after the calls that change it. `resetInspect` sleeps
-- for a minute before.
pub record Inspect : Type 0 where
  pub overflag : Bool

abbrev pub new_inspect : Inspect
new_inspect = record { overflag = false }

unfoldable pub close_inspect : Inspect → Inspect
close_inspect ins = record ins { overflag = true }

unfoldable pub reset_inspect : Inspect → Inspect
reset_inspect ins = record ins { overflag = false }

abbrev pub get_overflag : Inspect → Bool
get_overflag ins = ins.overflag

-- What other threads call.
pub data Control : Type 0 where
  close reset : Control

unfoldable pub control : List Control → Inspect → Inspect
unfolding close_inspect reset_inspect
control [] ins = ins
control (close ∷ cs) ins = control cs (close_inspect ins)
control (reset ∷ cs) ins = control cs (reset_inspect ins)

-- What one round of `routing_fn` meets: the calls before its test, and the file, if it opens.
pub record Poll : Type 0 where
  pub calls : List Control
  pub conf : Option Bytes

-- The thread, over the rounds that it gets to run.
unfoldable pub routing_fn : Inspect → Bytes → List Poll → Config → Option (Config × Bytes)
routing_fn ins value [] c = some (c, value)
routing_fn ins value (p ∷ ps) c =
    let ins' = control p.calls ins in
    let missed = routing_fn ins' value ps c in
    if get_overflag ins' then some (c, value) else elim p.conf [
      | none ↦ missed
      | some s ↦ elim (load value (words s) c) [
        | none ↦ none
        | some (c', value') ↦ routing_fn ins' value' ps c'
      ]
    ]
