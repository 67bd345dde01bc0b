-- ===== src/EnvFile/Scan.antt =====
-- How `LoadEnv` splits a file into lines (cli/internal/bootstrap/config/env.go; `bufio.Scanner` with
-- `ScanLines` and a buffer of at most 1 MiB).
use mathlib.Core.List.{append_assoc, append-nil}
use kube_dc_public.Prelude.{
  ◌≡◌, refl, ◌∙◌, ap, sym, Bool, true, false, Option, none, some, List, [], ◌∷◌, ◌++◌, any, All,
  ◌==◌, ◌&&◌, ltb, length, if◌then◌else◌, arith,
}
use kube_dc_public.Prelude.Text.{Text}
use kube_dc_public.EnvFile.{EnvLine, line_text, env_text}

-- A line without the carriage return at its end.
unfoldable pub drop_cr : Text → Text
drop_cr [] = []
drop_cr (c ∷ []) = if c == 13 then [] else c ∷ []
drop_cr (c ∷ d ∷ s) = c ∷ drop_cr (d ∷ s)

-- The lines of a text; `line` is what was read of the one at hand. An empty last line is none.
pub split_lines : Text → Text → List Text
split_lines [] [] = []
split_lines (b ∷ line) [] = (b ∷ line) ∷ []
split_lines line (c ∷ s) = elim (c == 10) [
  | true ↦ line ∷ split_lines [] s
  | false ↦ split_lines (line ++ (c ∷ [])) s
]

-- A line fits into the buffer.
unfoldable pub fits : Text → Bool
fits line = ltb (length line) 1048576

pub all_fit : List Text → Bool
unfolding fits
all_fit [] = true
all_fit (t ∷ ts) = fits t && all_fit ts

pub dropped : List Text → List Text
unfolding drop_cr
dropped [] = []
dropped (t ∷ ts) = drop_cr t ∷ dropped ts

-- A line that is too long is an error of the scanner.
pub scan : Text → Option (List Text)
unfolding split_lines all_fit dropped
scan s = let ts = split_lines [] s in if all_fit ts then some (dropped ts) else none

-- The lines of the file that a store is written to.
unfoldable pub file_lines : List EnvLine → List Text
file_lines [] = []
file_lines (l ∷ ls) = line_text l ∷ file_lines ls

-- The text of a line is read as one line, as it is.
pub record IsLine (t : Text) : Type 0 where
  pub one_line : any (λ c. c == 10) t ≡ false
  pub no_return : drop_cr t ≡ t
  pub short : fits t ≡ true

split_lines-line :
    (line t rest : Text)
    → any (λ c. c == 10) t ≡ false
    → split_lines line (t ++ (10 ∷ rest)) ≡ (line ++ t) ∷ split_lines [] rest
unfolding split_lines
split_lines-line [] [] rest n = refl
split_lines-line (b ∷ line) [] rest n =
    ap (λ l. l ∷ split_lines [] rest) (sym (append-nil (b ∷ line)))
split_lines-line line (c ∷ t) rest n =
    let others : any (λ d. d == 10) t ≡ false = ground arith in
    ground (arith, split_lines-line (line ++ (c ∷ [])) t rest others, append_assoc line (c ∷ []) t)

split_lines-env_text :
    (ls : List EnvLine)
    → All (λ l. IsLine (line_text l)) ls
    → split_lines [] (env_text ls) ≡ file_lines ls
unfolding split_lines env_text file_lines
split_lines-env_text [] p = refl
split_lines-env_text (l ∷ ls) p =
    split_lines-line [] (line_text l) (env_text ls) p.0.one_line
    ∙ ap (λ ts. line_text l ∷ ts) (split_lines-env_text ls p.1)

all_fit-file_lines :
    (ls : List EnvLine) → All (λ l. IsLine (line_text l)) ls → all_fit (file_lines ls) ≡ true
unfolding all_fit file_lines
all_fit-file_lines [] p = refl
all_fit-file_lines (l ∷ ls) p = ground (arith, p.0.short, all_fit-file_lines ls p.1)

dropped-file_lines :
    (ls : List EnvLine)
    → All (λ l. IsLine (line_text l)) ls
    → dropped (file_lines ls) ≡ file_lines ls
unfolding dropped file_lines
dropped-file_lines [] p = refl
dropped-file_lines (l ∷ ls) p = rw (p.0.no_return, dropped-file_lines ls p.1) refl

-- The lines of a store are those that are read from its file.
pub scan-env_text :
    (ls : List EnvLine)
    → All (λ l. IsLine (line_text l)) ls
    → scan (env_text ls) ≡ some (file_lines ls)
unfolding scan
scan-env_text ls p =
    rw (split_lines-env_text ls p, all_fit-file_lines ls p, dropped-file_lines ls p) refl
