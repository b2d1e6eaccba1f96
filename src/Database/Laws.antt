-- ===== src/Database/Laws.antt =====
-- src/database/db_manager.cpp: what loadDTCs reads after saveDTCs, for a library that does what the documentation of
-- SQLite says of the three statements.
use mcp2515_rpi.Base.{
  ℕ, suc, ◌+◌, ◌<◌, ◌≡◌, refl, ap, sym, ◌∙◌, subst, Bool, true, false, some, List, [], ◌∷◌, ◌++◌,
  map, length, take, All, leb, ◌==◌, if◌then◌else◌, u16, arith, inl, inr, Bool-cases,
}
use mcp2515_rpi.Api.Rest.Response.{decimal}
use mcp2515_rpi.Database.{
  Row, Sqlite, DbManager, delete_sql, insert_sql, codes_sql, read_codes, execute,
  execute_with_callback, save_codes, save_dtcs, load_dtcs,
}
use mcp2515_rpi.Database.Codes.{stoi-decimal}

-- How often a code stands in a list.
pub count : ℕ → List ℕ → ℕ
count k [] = 0
count k (x ∷ xs) = if x == k then suc (count k xs) else count k xs

abbrev pub row_of : ℕ → Row
row_of code = some (decimal 20 code) ∷ []

-- The codes after an insertion are those before it with one more, at any place.
pub record Inserted (code : ℕ) (old new : List ℕ) : Type 0 where
  pub before : List ℕ
  pub after : List ℕ
  pub was : old ≡ before ++ after
  pub is : new ≡ before ++ (code ∷ after)

-- What the documentation of SQLite says of the insertion of a code: it adds one row, or fails and changes nothing.
-- `stored` gives the codes of the vehicle in a content, in the order in which a query reads them.
pub record Inserts {D : Type 0} (lib : Sqlite D) (vin : List ℕ) (stored : D → List ℕ) (code : ℕ)
    : Type 0 where
  pub inserted :
      (h : ℕ) (d : D)
      → (lib.exec h d (insert_sql vin code)).ok ≡ true
      → Inserted code (stored d) (stored (lib.exec h d (insert_sql vin code)).content)
  pub failed :
      (h : ℕ) (d : D)
      → (lib.exec h d (insert_sql vin code)).ok ≡ false
      → stored (lib.exec h d (insert_sql vin code)).content ≡ stored d

-- What it says of the three statements, for the codes to be saved.
pub record Documented {D : Type 0} (lib : Sqlite D) (vin : List ℕ) (stored : D → List ℕ)
    (codes : List ℕ) : Type 0 where
  pub deleted :
      (h : ℕ) (d : D)
      → (lib.exec h d (delete_sql vin)).ok ≡ true
      → stored (lib.exec h d (delete_sql vin)).content ≡ []
  pub inserts : All (Inserts lib vin stored) codes
  pub selected :
      (h : ℕ) (d : D)
      → (lib.exec h d (codes_sql vin)).ok ≡ true
      → (lib.exec h d (codes_sql vin)).rows ≡ map row_of (stored d)

abbrev IsCodes : List ℕ → Type 0
IsCodes = All (λ c. c < 65536)

count-insert :
    (k code : ℕ) (xs ys : List ℕ)
    → count k (xs ++ (code ∷ ys)) ≡ count k (code ∷ []) + count k (xs ++ ys)
unfolding count
count-insert k code [] ys = ground arith
count-insert k code (x ∷ xs) ys = ground (arith, count-insert k code xs ys)

insert-IsCodes :
    (code : ℕ) (xs ys : List ℕ) → code < 65536 → IsCodes (xs ++ ys) → IsCodes (xs ++ (code ∷ ys))
insert-IsCodes code [] ys small h = (small, h)
insert-IsCodes code (x ∷ xs) ys small h = (h.0, insert-IsCodes code xs ys small h.1)

Inserted-IsCodes :
    (code : ℕ) (old new : List ℕ) → code < 65536 → Inserted code old new → IsCodes old → IsCodes new
Inserted-IsCodes code old new small i h =
    subst IsCodes (sym i.is) (insert-IsCodes code i.before i.after small (subst IsCodes i.was h))

read_codes-map : (codes : List ℕ) → IsCodes codes → read_codes (map row_of codes) ≡ some codes
unfolding read_codes
read_codes-map [] h = refl
read_codes-map (c ∷ codes) h =
    rw (stoi-decimal c h.0, read_codes-map codes h.1)
      (ap (λ n. some (n ∷ codes)) {x = u16 c} (omega (arith, h.0)))

module _ {D : Type 0} (lib : Sqlite D) (vin : List ℕ) (stored : D → List ℕ) where
  -- What is stored after some of the insertions.
  record Saved (codes : List ℕ) (old : List ℕ) (h : ℕ) (r : DbManager D × Bool) : Type 0 where
    n : ℕ
    answer : r.1 ≡ leb (length codes) n
    same_db : r.0.db ≡ some h
    counted : (k : ℕ) → count k (stored r.0.content) ≡ count k (take n codes) + count k old
    small : IsCodes (stored r.0.content)

  execute_on :
      (m : DbManager D) (h : ℕ) (sql : List ℕ)
      → m.db ≡ some h
      → execute lib m sql
        ≡ (record m { content = (lib.exec h m.content sql).content }, (lib.exec h m.content sql).ok)
  unfolding execute
  execute_on m h sql db = rw db refl

  one_more :
      (c h : ℕ) (codes old mid : List ℕ) (r : DbManager D × Bool)
      → Inserted c old mid
      → Saved codes mid h r
      → Saved (c ∷ codes) old h r
  unfolding count
  one_more c h codes old mid r i s =
      let mid_count : (k : ℕ) → count k mid ≡ count k (c ∷ []) + count k old = λ k.
        ap (count k) i.is
        ∙ count-insert k c i.before i.after
        ∙ ap (λ xs. count k (c ∷ []) + count k xs) (sym i.was) in
      record {
        n = suc s.n;
        answer = s.answer ∙ ground arith;
        same_db = s.same_db;
        counted = λ k. ground (arith, s.counted k, mid_count k);
        small = s.small;
      }

  save_codes-Saved :
      (m : DbManager D) (h : ℕ) (codes : List ℕ)
      → All (Inserts lib vin stored) codes
      → m.db ≡ some h
      → IsCodes codes
      → IsCodes (stored m.content)
      → Saved codes (stored m.content) h (save_codes lib m vin codes)
  unfolding save_codes count
  save_codes-Saved m h [] doc db ok old = record {
    n = 0;
    answer = refl;
    same_db = db;
    counted = λ k. omega arith;
    small = old;
  }
  save_codes-Saved m h (c ∷ codes) doc db ok old =
      elim (Bool-cases (lib.exec h m.content (insert_sql vin c)).ok) [
        | inl done ↦
            let i = doc.0.inserted h m.content done in
            let next : DbManager D = record m {
              content = (lib.exec h m.content (insert_sql vin c)).content;
            } in
            rw (execute_on m h (insert_sql vin c) db, done, if◌then◌else◌)
              (one_more c h codes (stored m.content) (stored next.content)
                (save_codes lib next vin codes) i
                (save_codes-Saved next h codes doc.1 db ok.1 (Inserted-IsCodes c _ _ ok.0 i old)))
        | inr lost ↦
            rw (execute_on m h (insert_sql vin c) db, lost, if◌then◌else◌)
              record {
                n = 0;
                answer = ground arith;
                same_db = db;
                counted = λ k. omega (arith, ap (count k) (doc.0.failed h m.content lost));
                small = subst IsCodes (sym (doc.0.failed h m.content lost)) old;
              }
      ]

  none_before :
      (k n : ℕ) (codes old : List ℕ) {c : ℕ}
      → old ≡ []
      → c ≡ count k (take n codes) + count k old
      → c ≡ count k (take n codes)
  unfolding count
  none_before k n codes old e h = omega (arith, h, ap (count k) e)

  load-stored :
      {codes : List ℕ} (doc : Documented lib vin stored codes) (m : DbManager D) (h : ℕ)
      → m.db ≡ some h
      → (lib.exec h m.content (codes_sql vin)).ok ≡ true
      → IsCodes (stored m.content)
      → (load_dtcs lib m vin).1 ≡ some (stored m.content)
  unfolding load_dtcs execute_with_callback
  load-stored {codes} doc m h db read ok =
      rw (db, doc.selected h m.content read) (read_codes-map (stored m.content) ok)

  save_dtcs_lem :
      (m : DbManager D) (h : ℕ) (codes : List ℕ)
      → m.db ≡ some h
      → save_dtcs lib m vin codes
        ≡ save_codes lib
            (record m { content = (lib.exec h m.content (delete_sql vin)).content })
            vin
            codes
  unfolding save_dtcs
  save_dtcs_lem m h codes db = rw (execute_on m h (delete_sql vin) db) refl

  -- With a library that does what SQLite documents, an open handle and codes of 16 bits, where the deletion of the
  -- old codes and the query after the save succeed, there is a number `n` such that loadDTCs reads after saveDTCs the
  -- first `n` of the codes to be saved, every code as often as it stands among these, whatever was stored before;
  -- saveDTCs answers `true` exactly when these are all.
  pub load-save :
      (m : DbManager D) (h : ℕ) (codes : List ℕ)
      → Documented lib vin stored codes
      → m.db ≡ some h
      → (lib.exec h m.content (delete_sql vin)).ok ≡ true
      → (lib.exec h (save_dtcs lib m vin codes).0.content (codes_sql vin)).ok ≡ true
      → IsCodes codes
      → (n : ℕ) × (loaded : List ℕ) × ((save_dtcs lib m vin codes).1 ≡ leb (length codes) n)
        × ((load_dtcs lib (save_dtcs lib m vin codes).0 vin).1 ≡ some loaded)
        × ((k : ℕ) → count k loaded ≡ count k (take n codes))
  load-save m h codes doc db gone read ok =
      let next : DbManager D = record m {
        content = (lib.exec h m.content (delete_sql vin)).content;
      } in
      let empty : stored next.content ≡ [] = doc.deleted h m.content gone in
      let s = save_codes-Saved next h codes doc.inserts db ok (subst IsCodes (sym empty) tt) in
      rw (save_dtcs_lem m h codes db) (
        s.n,
        stored (save_codes lib next vin codes).0.content,
        s.answer,
        load-stored doc (save_codes lib next vin codes).0 h s.same_db
            (subst (λ r. (lib.exec h r.0.content (codes_sql vin)).ok ≡ true)
              (save_dtcs_lem m h codes db) read)
            s.small,
        λ k. none_before k s.n codes _ empty (s.counted k),
      )
