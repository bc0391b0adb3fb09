-- ===== src/Prodeal/Move.antt =====
-- `CProDeal::movAfpFile` and `CProDeal::movCntFile`: chosen finger files move to the directory
-- that is sent.
pub mod Aside
pub mod Chosen
pub mod Clear
pub mod Delivery
pub mod Listing
pub mod Rename
pub mod Window
use finger_move.Base.{
  List, [], add_int, if◌then◌else◌, leb_ℤ, ltb_ℤ, none, pos, some, ℕ, ℤ, ◌+◌, ◌∷◌,
}
use finger_move.Clib.{Bytes, drop_last, lines}
use finger_move.Prodeal.Names.{bot_afps_file, is_dot_entry, or_error, top_afps_file}
use finger_move.World.{
  Cmd, done, fault, fopen_rb, for_each, list_dir, pure, remove, rename, sprintf_path, unit, ◌>>=◌,
  ◌>>◌,
}

-- The first loop of both: `dst` is emptied.
unfoldable pub clear_entry : Bytes → Bytes → Cmd (Unit {0})
unfolding sprintf_path remove
clear_entry dst n = if is_dot_entry n then unit else (do p ← sprintf_path dst n; remove p; unit)

-- The body of the second loop. A line that begins with NUL makes it write in front of the buffer.
unfoldable pub move_line : Bytes → Bytes → Bytes → Cmd (Unit {0})
unfolding drop_last sprintf_path rename
move_line org dst line = elim line [
  | [] ↦ λ w. fault
  | c ∷ s ↦ do
    p ← sprintf_path org (drop_last (c ∷ s))
    q ← sprintf_path dst (drop_last (c ∷ s))
    rename p q
]

unfoldable pub mov_afp_file : Bytes → Bytes → Bytes → Cmd ℤ
unfolding list_dir for_each clear_entry move_line sprintf_path fopen_rb lines
mov_afp_file org dst wrk = or_error (list_dir dst) λ entries. do
  for_each entries (clear_entry dst)
  name ← sprintf_path wrk top_afps_file
  or_error (fopen_rb name) λ tops. do for_each (lines tops) (move_line org dst); pure (pos 0)

-- The second loop of `movCntFile`, from its count of lines so far.
-- The sum in its second test is an `int`.
unfoldable pub mov_loop : Bytes → Bytes → ℤ → ℤ → List Bytes → ℕ → Cmd (Unit {0})
unfolding move_line add_int
mov_loop org dst start cnt [] count w = done tt w
mov_loop org dst start cnt (line ∷ ls) count w =
    let passed = mov_loop org dst start cnt ls (count + 1) w in
    if ltb_ℤ (pos count) start then passed else elim (add_int start cnt) [
      | none ↦ fault
      | some last ↦ if leb_ℤ last (pos count) then done tt w else elim (move_line org dst line w) [
        | fault ↦ fault
        | done _ w' ↦ mov_loop org dst start cnt ls (count + 1) w'
      ]
    ]

unfoldable pub mov_cnt_file : Bytes → Bytes → Bytes → ℤ → ℤ → Cmd ℤ
unfolding list_dir for_each clear_entry mov_loop sprintf_path fopen_rb lines
mov_cnt_file org dst wrk start cnt = or_error (list_dir dst) λ entries. do
  for_each entries (clear_entry dst)
  name ← sprintf_path wrk bot_afps_file
  or_error (fopen_rb name) λ bots. do mov_loop org dst start cnt (lines bots) 0; pure (pos 0)
