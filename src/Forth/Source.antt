-- ===== src/Forth/Source.antt =====
-- The compiler of Forth sources (aeon-vm/src/forth.rs): comments, tokens, includes and definitions.
use aeon_flow.Base.{
  ℕ, zero, suc, List, [], ◌∷◌, ◌++◌, ◌==◌, if◌then◌else◌, Bytes, bytes_eq, ascii, is_utf8, insert,
  Text, is_whitespace, split_onto, to_ascii_lowercase, chars_onto, map, Outcome,
}
use aeon_flow.Machine.{pure, raise, lift, ◌>>=◌}
use aeon_flow.Forth.Storage.{
  ForthError, utf8, bad_definition, include_depth, include_missing_path, unexpected_end,
  missing_name, missing_end, Dictionary, Files, read_raw,
}

-- Where the loop of `tokenize` stands
pub data Comment : Type 0 where
  none line paren : Comment

-- The characters outside comments
unfoldable pub strip_from : Comment → Text → Text
strip_from mode [] = []
strip_from line (c ∷ cs) =
    let rest = strip_from (if c == b'\n' then none else line) cs in
    if c == b'\n' then b' ' ∷ rest else rest
strip_from paren (c ∷ cs) = strip_from (if c == b')' then none else paren) cs
strip_from none (c ∷ cs) =
    let rest = strip_from (if c == b'\\' then line else if c == b'(' then paren else none) cs in
    if c == b'\\' then rest else if c == b'(' then b' ' ∷ rest else c ∷ rest

unfoldable pub tokenize : Text → List Text
unfolding strip_from
tokenize source = map to_ascii_lowercase (split_onto is_whitespace [] (strip_from none source))

-- Where `i` stands in the loop of `compile_into`: at a token outside definitions, at the path of an
-- `include`, at the name of a definition, or in its body.
pub data Scan : Type 0 where
  outside after_include after_colon : Scan
  in_word : (name : Text) (body : List Text) → Scan

abbrev pub Compiled : Type 0
Compiled = Dictionary × List Text

-- `String::from_utf8`, and the characters of the text
abbrev pub from_utf8 : Bytes → Outcome ForthError Text
from_utf8 bytes = if is_utf8 bytes then Outcome.ok (chars_onto 0 0 bytes) else Outcome.err utf8

-- One token, for what an `include` of a path does
unfoldable pub scan_token :
    (Text → Compiled → Files Compiled) → Scan → Text → Compiled → Files (Scan × Compiled)
scan_token include outside token (dict, main) =
    if bytes_eq token (ascii "include")
    then pure (after_include, (dict, main))
    else if bytes_eq token (ascii ":")
    then pure (after_colon, (dict, main))
    else if bytes_eq token (ascii ";")
    then raise (bad_definition unexpected_end)
    else pure (outside, (dict, main ++ token ∷ []))
scan_token include after_include path c = do c' ← include path c; pure (outside, c')
scan_token include after_colon name c = pure (in_word name [], c)
scan_token include (in_word name body) token (dict, main) =
    if bytes_eq token (ascii ";")
    then pure (outside, (insert name body dict, main))
    else pure (in_word name (body ++ token ∷ []), (dict, main))

-- The end of the tokens
abbrev scan_end : Scan → Compiled → Outcome ForthError Compiled
scan_end outside c = Outcome.ok c
scan_end after_include c = Outcome.err (bad_definition include_missing_path)
scan_end after_colon c = Outcome.err (bad_definition missing_name)
scan_end (in_word name body) c = Outcome.err (bad_definition (missing_end name))

-- The loop of `compile_into`
unfoldable pub compile_tokens :
    (Text → Compiled → Files Compiled) → Scan → List Text → Compiled → Files Compiled
unfolding scan_token
compile_tokens include scan [] c = lift (scan_end scan c)
compile_tokens include scan (token ∷ rest) c = do
  r ← scan_token include scan token c
  compile_tokens include r.0 rest r.1

-- `left` is how many more includes may nest: `depth` is `17 - left`.
unfoldable pub compile_into : (left : ℕ) → Text → Compiled → Files Compiled
unfolding compile_tokens
compile_into zero source c = raise (bad_definition include_depth)
compile_into (suc left) source c =
    let include : Text → Compiled → Files Compiled = λ path c'. (do
      bytes ← read_raw path
      text ← lift (from_utf8 bytes)
      compile_into left text c') in
    compile_tokens include outside (tokenize source) c

unfoldable pub compile_source : Text → Files Compiled
unfolding compile_into
compile_source source = compile_into 17 source ([], [])
