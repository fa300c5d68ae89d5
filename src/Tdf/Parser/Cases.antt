-- ===== src/Tdf/Parser/Cases.antt =====
-- The readers of a Parser on each kind of value that has no other value inside.
use recap_server.Prelude.{
  Option, ℕ, suc, ◌^◌, ◌<◌, sym, subst, List, [], ◌∷◌, ◌++◌, some, arith, length,
}
use recap_server.Prelude.Bytes.{u16_mod}
use recap_server.DataBuffer.Varint.Septets.{tdf_bytes}
use recap_server.Json.{
  standard, Json, number, text, Items, nil, cons, Members, end, append_member, push_back,
  append_members, append_items, append_member-members, push_back-items, append_members-end,
  append_items-nil,
}
use recap_server.Tdf.Codec.{TdfType, integer, string, binary, tagged_union}
use recap_server.Tdf.Codec.RoundTrip.{text_bytes}
use recap_server.Tdf.Parser.{
  Reader, return, read_number, read_text, read_each, read_integer_list, read_object_type,
  read_object_id, read_entries, read_map, read_list, read_case,
}
use recap_server.Tdf.Parser.Reads.{
  Reads, Reads-return, Reads->>>, Reads-append_assoc, Reads-u8, Reads-then, Reads-number,
  Reads-text, Reads-blob,
}
use recap_server.Tdf.Tree.{
  unset, integers, pair, triple, number_items, text_items, text_map, parsed, numbers, texts,
  text_members, sized_list,
}
use recap_server.Tdf.Tree.Wire.{
  numbers_bytes, texts_bytes, entries_bytes, AllSmall, IsText, AllTexts, AllEntries,
}

-- Items are read one after another.
pub each_nil :
    (r : Reader Json) (acc : Items) → Reads (read_each standard r 0 acc) [] (append_items acc nil)
unfolding read_each
each_nil r acc = subst (Reads (return acc) []) (sym (append_items-nil acc)) (Reads-return acc)

pub each_cons :
    (r : Reader Json) (n : ℕ) (acc : Items) (xs ys : List ℕ) (v : Json) (vs : Items)
    → Reads r xs v
    → Reads (read_each standard r n (push_back acc v)) ys (append_items (push_back acc v) vs)
    → Reads (read_each standard r (suc n) acc) (xs ++ ys) (append_items acc (cons v vs))
unfolding read_each
each_cons r n acc xs ys v vs p q =
    subst (Reads (read_each standard r (suc n) acc) (xs ++ ys)) (push_back-items acc v vs)
      (Reads->>> _ xs ys v p q)

each-number :
    (xs : List ℕ) (acc : Items)
    → AllSmall xs
    → Reads
        (read_each standard read_number (length xs) acc)
        (numbers_bytes xs)
        (append_items acc (numbers xs))
each-number [] acc h = each_nil read_number acc
each-number (x ∷ xs) acc (small, h) =
    each_cons read_number (length xs) acc (tdf_bytes x) (numbers_bytes xs) (number x) (numbers xs)
      (Reads-number x small) (each-number xs (push_back acc (number x)) h)

each-text :
    (ss : List (List ℕ)) (acc : Items)
    → AllTexts ss
    → Reads
        (read_each standard read_text (length ss) acc)
        (texts_bytes ss)
        (append_items acc (texts ss))
each-text [] acc h = each_nil read_text acc
each-text (s ∷ ss) acc ((small, clean), h) =
    each_cons read_text (length ss) acc (text_bytes s) (texts_bytes ss) (text s) (texts ss)
      (Reads-text s small) (each-text ss (push_back acc (text s)) h)

each-entry :
    (r : Reader Json) (es : List (List ℕ × List ℕ)) (acc : Members)
    → AllEntries es
    → Reads
        (read_entries standard r string string (length es) acc)
        (entries_bytes es)
        (append_members acc (text_members es))
unfolding read_entries
each-entry r [] acc h =
    subst (Reads (return acc) []) (sym (append_members-end acc)) (Reads-return acc)
each-entry r ((k, s) ∷ es) acc ((small, clean), (small', clean'), h) =
    subst
      (Reads (read_entries standard r string string (suc (length es)) acc)
        ((text_bytes k ++ text_bytes s) ++ entries_bytes es))
      (append_member-members acc k (text s) (text_members es))
      (Reads-append_assoc (text_bytes k) (text_bytes s) (entries_bytes es) (
        Reads->>> _ (text_bytes k) (text_bytes s ++ entries_bytes es) (text k) (Reads-text k small)
          (Reads->>> _ (text_bytes s) (entries_bytes es) (text s) (Reads-text s small')
            (each-entry r es (append_member acc k (text s)) h))))

pub integers_read :
    (xs : List ℕ)
    → AllSmall xs
    → Reads
        (read_integer_list standard)
        ((length xs ∷ []) ++ numbers_bytes xs)
        (parsed (integers xs))
unfolding read_integer_list
integers_read xs h =
    Reads->>> _ (length xs ∷ []) (numbers_bytes xs) (length xs) (Reads-u8 (length xs))
      (Reads-then _ (numbers_bytes xs) (numbers xs) (each-number xs nil h))

pub pair_read :
    (x y : ℕ)
    → x < u16_mod
    → y < u16_mod
    → Reads (read_object_type standard) (tdf_bytes x ++ tdf_bytes y) (parsed (pair x y))
unfolding read_object_type
pair_read x y hx hy =
    Reads->>> _ (tdf_bytes x) (tdf_bytes y) (number x) (Reads-number x (omega arith))
      (Reads-then _ (tdf_bytes y) (number y) (Reads-number y (omega arith)))

pub triple_read :
    (x y z : ℕ)
    → x < u16_mod
    → y < u16_mod
    → z < 2 ^ 55
    → Reads
        (read_object_id standard)
        (tdf_bytes x ++ (tdf_bytes y ++ tdf_bytes z))
        (parsed (triple x y z))
unfolding read_object_id
triple_read x y z hx hy hz =
    Reads->>> _ (tdf_bytes x) (tdf_bytes y ++ tdf_bytes z) (number x) (Reads-number x (omega arith))
      (Reads->>> _ (tdf_bytes y) (tdf_bytes z) (number y) (Reads-number y (omega arith))
        (Reads-then _ (tdf_bytes z) (number z) (Reads-number z hz)))

module _ (r : Reader Json) (v : Json → Reader Json) (loop : Json → Reader Json) where
  -- ReadValue without the header.
  abbrev pub case : TdfType → Reader (Option Json)
  case = read_case standard r v loop

  pub case-num : (n : ℕ) → n < 2 ^ 55 → Reads (case integer) (tdf_bytes n) (some (number n))
  unfolding read_case
  case-num n h = Reads-then some (tdf_bytes n) (number n) (Reads-number n h)

  pub case-str : (s : List ℕ) → IsText s → Reads (case string) (text_bytes s) (some (text s))
  unfolding read_case
  case-str s h = Reads-then some (text_bytes s) (text s) (Reads-text s h.0)

  pub case-blob :
      (s : List ℕ) → IsText s → Reads (case binary) (tdf_bytes (length s) ++ s) (some (text s))
  unfolding read_case
  case-blob s h = Reads-then some (tdf_bytes (length s) ++ s) (text s) (Reads-blob s h.0)

  pub case-unset : Reads (case tagged_union) (127 ∷ []) (some (parsed unset))
  unfolding read_case
  case-unset =
      Reads-then some (127 ∷ []) (parsed unset)
        (Reads->>> _ (127 ∷ []) [] 127 (Reads-u8 127) (Reads-return _))

  pub map_read :
      (es : List (List ℕ × List ℕ))
      → AllEntries es
      → Reads
          (read_map standard r)
          ((1 ∷ []) ++ ((1 ∷ []) ++ ((length es ∷ []) ++ entries_bytes es)))
          (parsed (text_map es))
  unfolding read_map
  map_read es h = Reads->>> _ (1 ∷ []) _ 1 (Reads-u8 1) (
      Reads->>> _ (1 ∷ []) _ 1 (Reads-u8 1) (
        Reads->>> _ (length es ∷ []) (entries_bytes es) (length es) (Reads-u8 (length es))
          (Reads-then _ (entries_bytes es) (text_members es) (each-entry r es end h))))

  pub numbers_read :
      (xs : List ℕ)
      → AllSmall xs
      → Reads
          (read_list standard r loop)
          ((0 ∷ []) ++ ((length xs ∷ []) ++ numbers_bytes xs))
          (parsed (number_items xs))
  unfolding read_list
  numbers_read xs h = Reads->>> _ (0 ∷ []) _ 0 (Reads-u8 0) (
      Reads->>> _ (length xs ∷ []) (numbers_bytes xs) (length xs) (Reads-u8 (length xs)) (
        Reads-then (λ ys. sized_list integer (length xs) ys) (numbers_bytes xs) (numbers xs)
          (each-number xs nil h)))

  pub texts_read :
      (ss : List (List ℕ))
      → AllTexts ss
      → Reads
          (read_list standard r loop)
          ((1 ∷ []) ++ ((length ss ∷ []) ++ texts_bytes ss))
          (parsed (text_items ss))
  unfolding read_list
  texts_read ss h = Reads->>> _ (1 ∷ []) _ 1 (Reads-u8 1) (
      Reads->>> _ (length ss ∷ []) (texts_bytes ss) (length ss) (Reads-u8 (length ss)) (
        Reads-then (λ ys. sized_list string (length ss) ys) (texts_bytes ss) (texts ss)
          (each-text ss nil h)))
