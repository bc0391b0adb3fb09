-- ===== src/Prodeal/Select.antt =====
-- `CProDeal::topAfpFile` and `CProDeal::botAfpFile`: the songs that a group or the cache is to hold.
pub mod Entries
pub mod Fingers
pub mod Written
pub mod Top
pub mod Bottom
pub mod Cache
pub mod Bounded
use finger_move.Base.{
  List, Option, [], if◌then◌else◌, leb, leb_ℤ, length, ltb, none, pos, some, ℕ, ℤ, ◌++◌, ◌+◌, ◌∷◌,
}
use finger_move.Clib.{Bytes, atoi, codes, lines, max_line_len, newline, strtok}
use finger_move.Prodeal.Count.{bar}
use finger_move.Prodeal.Filter.{elem_ℤ, ids}
use finger_move.Prodeal.Names.{
  afp_name_file, bot_afps_file, flt_logs_file, or_error, or_error_wb, top_afps_file,
}
use finger_move.World.{
  Cmd, fclose_wb, fopen_rb, fopen_wb, or_fault, pure, sprintf_path, ◌>>=◌, ◌>>◌,
}

-- The two calls of strtok and `atoi(val)`; `none` is atoi of a null pointer.
unfoldable pub parse_count : Bytes → Option (Bytes × ℤ)
unfolding strtok atoi
parse_count line = elim (strtok bar line) [
  | none ↦ none
  | some (songid, more) ↦ elim (strtok bar more) [
    | none ↦ none
    | some (val, _) ↦ some (songid, atoi val)
  ]
]

-- `sprintf(line, "%s.afp\n", songid)` into MAX_LINE_LEN bytes; `none` is an overrun.
unfoldable pub afp_line : Bytes → Option Bytes
afp_line songid =
    let text = songid ++ codes ".afp" ++ newline ∷ [] in
    if ltb (length text) max_line_len then some text else none

-- What the loop of `topAfpFile` has written and counted when it ends, from its count so far.
unfoldable pub top_loop : ℕ → ℤ → List Bytes → ℕ → Option (ℕ × Bytes)
unfolding parse_count afp_line
top_loop limit cnt [] count = some (count, [])
top_loop limit cnt (line ∷ ls) count =
    let rest = top_loop limit cnt ls (count + 1) in
    if leb limit count then some (count, []) else elim (parse_count line) [
      | none ↦ none
      | some (songid, num) ↦ if leb_ℤ num cnt then some (count, []) else elim (afp_line songid) [
        | none ↦ none
        | some text ↦ elim rest [ none ↦ none | some (n, out) ↦ some (n, text ++ out) ]
      ]
    ]

-- `limit` is Config::GROUP_LIMIT.
unfoldable pub top_afp_file : ℕ → Bytes → Bytes → ℤ → Cmd ℤ
top_afp_file limit org dst cnt = do
  name ← sprintf_path org flt_logs_file
  or_error (fopen_rb name) λ logs. do
    fname ← sprintf_path dst top_afps_file
    or_error_wb (fopen_wb fname) (do
      (count, out) ← or_fault (top_loop limit cnt (lines logs) 0)
      fclose_wb fname out
      pure (pos count))

-- The loop of `botAfpFile` over all names: those that nobody asked for. Its result is the count
-- and the text.
unfoldable pub cold_loop : ℕ → List ℤ → List Bytes → ℕ → ℕ × Bytes
unfolding elem_ℤ atoi
cold_loop limit asked [] count = (count, [])
cold_loop limit asked (line ∷ ls) count =
    let found = elem_ℤ (atoi line) asked in
    let (n, out) = cold_loop limit asked ls (if found then count else count + 1) in
    if leb limit count then (count, []) else if found then (n, out) else (n, line ++ out)

-- The loop over the counts, from the least. Its result is the last count read and the text.
unfoldable pub hot_loop : ℕ → List Bytes → ℕ → ℤ → Option (ℤ × Bytes)
unfolding parse_count
hot_loop limit [] count thr = some (thr, [])
hot_loop limit (line ∷ ls) count thr =
    if leb limit count then some (thr, []) else elim (parse_count line) [
      | none ↦ none
      | some (songid, num) ↦ elim (hot_loop limit ls (count + 1) num) [
        | none ↦ none
        | some (t, out) ↦ some (t, songid ++ newline ∷ out)
      ]
    ]

-- `limit` is Config::CACHE_LIMIT.
unfoldable pub bot_afp_file : ℕ → Bytes → Bytes → Cmd ℤ
unfolding cold_loop hot_loop sprintf_path fopen_rb fopen_wb fclose_wb lines
bot_afp_file limit org dst = do
  afp ← sprintf_path org afp_name_file
  or_error (fopen_rb afp) λ afps. do
    log ← sprintf_path org flt_logs_file
    or_error (fopen_rb log) λ logs. do
      fname ← sprintf_path dst bot_afps_file
      or_error_wb (fopen_wb fname) (do
        let (count, cold) = cold_loop limit (ids (lines logs)) (lines afps) 0
        (thr, hot) ← or_fault (hot_loop limit (lines logs) count (pos 0))
        fclose_wb fname (cold ++ hot)
        pure thr)
