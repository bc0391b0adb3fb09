-- ===== src/Prodeal/Select/Written.antt =====
-- `topAfpFile` on the files that the steps before it write.
use finger_move.Base.{
  All, List, [], ap, append_assoc, ap₂, arith, length, length-append, map, pos, refl, some, sym,
  take, true, ℕ, ℤ, ◌++◌, ◌∙◌, ◌∷◌, ◌≡◌,
}
use finger_move.Clib.{Bytes, decimal, lines, newline}
use finger_move.Clib.Laws.Lines.{IsText, lines-written, terminated, written}
use finger_move.Prodeal.Count.{bar, count_line, count_text}
use finger_move.Prodeal.Names.{flt_logs_file, top_afps_file}
use finger_move.Prodeal.Names.Plain.{flt_logs_file-IsPlain, top_afps_file-IsPlain}
use finger_move.Prodeal.Select.{top_afp_file}
use finger_move.Prodeal.Select.Entries.{IsEntry, entry_line}
use finger_move.Prodeal.Select.Top.{Descending, above, afp_text, top_loop-above_limit}
use finger_move.World.{World, done, writable, ◌>>=◌}
use finger_move.World.Effects.{
  Fits, Holds, fclose_wb-join, fopen_rb-there, fopen_wb-writable, saved, sprintf_path-fits,
}
use finger_move.World.Files.{path, put}

-- A line of the counts without its newline.
abbrev pub entry_text : Bytes × ℕ → Bytes
entry_text (k, n) = k ++ bar ∷ decimal n

terminated-entry_text : (e : Bytes × ℕ) → terminated (entry_text e) ≡ entry_line e
terminated-entry_text (k, n) = append_assoc k (bar ∷ decimal n) (newline ∷ [])

map-terminated : (es : List (Bytes × ℕ)) → map terminated (map entry_text es) ≡ map entry_line es
map-terminated [] = refl
map-terminated (e ∷ es) = ap₂ ◌∷◌ (terminated-entry_text e) (map-terminated es)

-- The counts as a file: each line fits the buffer and can be read back.
abbrev pub AreLines : List (Bytes × ℕ) → Type 0
AreLines es = All IsText (map entry_text es)

count_line-text :
    (e : Bytes × ℕ) → IsText (entry_text e) → count_line e ≡ some (terminated (entry_text e))
unfolding count_line
count_line-text (k, n) h = rw (append_assoc k (bar ∷ decimal n) (newline ∷ [])) (
    ground (
      arith,
      length-append k (bar ∷ decimal n),
      length-append k (bar ∷ (decimal n ++ newline ∷ [])),
      length-append (decimal n) (newline ∷ []),
      h.2,
    ))

-- The text that cntSrhNums writes.
pub count_text-written :
    (es : List (Bytes × ℕ)) → AreLines es → count_text es ≡ some (written (map entry_text es))
unfolding count_text
count_text-written [] h = refl
count_text-written (e ∷ es) h =
    rw (count_line-text e h.0, count_text)
      (rw (count_text-written es h.1)
        (ap some (append_assoc (entry_text e) (newline ∷ []) (written (map entry_text es)))))

-- What cntSrhNums writes is read back by the steps behind it, line by line.
pub lines-count_text :
    (es : List (Bytes × ℕ)) → AreLines es → lines (written (map entry_text es)) ≡ map entry_line es
lines-count_text es h = lines-written (map entry_text es) h ∙ map-terminated es

pub top_afp_file-run :
    (most : ℕ) (org dst : Bytes) (cnt : ℤ) (es : List (Bytes × ℕ)) (counts : Bytes) (w : World)
    → count_text es ≡ some counts
    → AreLines es
    → All IsEntry es
    → Descending es
    → Holds org flt_logs_file counts w
    → Fits dst top_afps_file
    → writable (path dst top_afps_file) w ≡ true
    → let chosen = take most (above cnt es) in
      top_afp_file most org dst cnt w
      ≡ done (pos (length chosen)) (saved dst top_afps_file (afp_text chosen) w)
unfolding top_afp_file
top_afp_file-run most org dst cnt es counts w wrote good entries sorted holds fits free =
    let v = record w { files = put (path dst top_afps_file) [] w.files } in
    let wrote_lines = sym wrote ∙ count_text-written es good in
    let reads : lines counts ≡ map entry_line es =
      ap lines (ground (arith, wrote_lines)) ∙ lines-count_text es good in
    rw (sprintf_path-fits org flt_logs_file w holds.fits, ◌>>=◌)
      (rw (fopen_rb-there org flt_logs_file counts w flt_logs_file-IsPlain.1 holds, ◌>>=◌)
        (rw (sprintf_path-fits dst top_afps_file w fits, ◌>>=◌)
          (rw (fopen_wb-writable dst top_afps_file w top_afps_file-IsPlain.1 free, ◌>>=◌)
            (rw reads (
              rw (top_loop-above_limit most cnt es entries sorted, ◌>>=◌)
                (rw (fclose_wb-join dst top_afps_file _ v top_afps_file-IsPlain.1, ◌>>=◌)))))))
