-- ===== src/Forth/Definitions.antt =====
-- What the compiler makes of a printed program (aeon-vm/src/forth.rs): its definitions and its words.
use aeon_flow.Base.{
  ◌≡◌, refl, ◌∙◌, false, List, [], ◌∷◌, ◌++◌, append_assoc, append-nil, bytes_eq, ascii, insert,
  Text, Outcome,
}
use aeon_flow.Vfs.{VirtualFs}
use aeon_flow.Forth.{Files, Compiled, outside, in_word, scan_token, compile_tokens}

-- A program as a list of definitions and of words to run.
pub data Item : Type 0 where
  define : (name : Text) (body : List Text) → Item
  word : Text → Item

abbrev pub print_items : List Item → List Text
print_items [] = []
print_items (define name body ∷ items) = ascii ":" ∷ name ∷ (body ++ ascii ";" ∷ print_items items)
print_items (word w ∷ items) = w ∷ print_items items

-- A later definition of a name stands in place of an earlier one.
abbrev pub meaning : List Item → Compiled → Compiled
meaning [] c = c
meaning (define name body ∷ items) (dict, main) = meaning items (insert name body dict, main)
meaning (word w ∷ items) (dict, main) = meaning items (dict, main ++ w ∷ [])

-- The body of a definition has no `;`, and a word to run is none of the three that the compiler reads.
abbrev NoEnd : List Text → Type 0
NoEnd [] = Unit
NoEnd (t ∷ ts) = (bytes_eq t (ascii ";") ≡ false) × NoEnd ts

abbrev pub AreItems : List Item → Type 0
AreItems [] = Unit
AreItems (define name body ∷ items) = NoEnd body × AreItems items
AreItems (word w ∷ items) =
    (bytes_eq w (ascii "include") ≡ false)
    × (bytes_eq w (ascii ":") ≡ false)
    × (bytes_eq w (ascii ";") ≡ false)
    × AreItems items

module _ (include : Text → Compiled → Files Compiled) (fs : VirtualFs) where
  compile_tokens-body :
      (name : Text) (sofar body rest : List Text) (c : Compiled)
      → NoEnd body
      → compile_tokens include (in_word name sofar) (body ++ ascii ";" ∷ rest) c fs
        ≡ compile_tokens include outside rest (insert name (sofar ++ body) c.0, c.1) fs
  unfolding compile_tokens scan_token bytes_eq
  compile_tokens-body name sofar [] rest c n = rw append-nil refl
  compile_tokens-body name sofar (t ∷ body) rest c (n, ns) =
      rw n (rw (compile_tokens-body name (sofar ++ t ∷ []) body rest c ns, append_assoc) refl)

  -- Compiling the printed form of a program gives its definitions and its words in their order, for
  -- words that are none of the compiler's own and bodies without a `;`. No file is touched.
  pub compile_tokens-print_items :
      (items : List Item) (c : Compiled)
      → AreItems items
      → compile_tokens include outside (print_items items) c fs ≡ (Outcome.ok (meaning items c), fs)
  unfolding compile_tokens scan_token bytes_eq
  compile_tokens-print_items [] c a = refl
  compile_tokens-print_items (define name body ∷ items) c (n, a) =
      compile_tokens-body name [] body (print_items items) c n
      ∙ compile_tokens-print_items items (insert name body c.0, c.1) a
  compile_tokens-print_items (word w ∷ items) c (i, d, e, a) =
      rw (i, d, e) (compile_tokens-print_items items (c.0, c.1 ++ w ∷ []) a)
