-- ===== src/Interfaces/Reading.antt =====
-- What code that holds a `Reader` can do.
use go_dbw.Prelude.{◌≡◌, refl, ap, ◌∙◌, ℕ, String, Option, List}
use go_dbw.Reflect.{Value}
use go_dbw.Gorm.{Gorm, Resources}
use go_dbw.Action.{State}
use go_dbw.Once.{Counting}
use go_dbw.Once.Reads.{lookup_by-Free, lookups_never_write}
use go_dbw.Db.{Drivers}
use go_dbw.Interfaces.{OptionList, Reader, reader_of}

-- The lookups and searches of a `Reader` make no write.
pub record IsReadOnly (G : Gorm) (writes : G.World → ℕ) (r : Reader G) : Type 0 where
  pub of_lookup_by :
      (ctx : G.Context) (opt : OptionList G) (s : State G.World)
      → writes (r.lookup_by ctx opt s).1.world ≡ writes s.world
  pub of_lookup_by_public_id :
      (ctx : G.Context) (opt : OptionList G) (s : State G.World)
      → writes (r.lookup_by_public_id ctx opt s).1.world ≡ writes s.world
  pub of_lookup_where :
      (ctx : G.Context) (condition : String) (args : List Value) (opt : OptionList G)
      (s : State G.World)
      → writes (r.lookup_where ctx condition args opt s).1.world ≡ writes s.world
  pub of_search_where :
      (ctx : G.Context) (condition : String) (args : List Value) (opt : OptionList G)
      (s : State G.World)
      → writes (r.search_where ctx condition args opt s).1.world ≡ writes s.world

module _ (G : Gorm) (r : Reader G) where
  -- Code that looks up and searches with a `Reader`, and sets its variables in between as it likes.
  pub data Reads : State G.World → State G.World → Type 0 where
    done : (s : State G.World) → Reads s s
    looking_up :
        {s : State G.World} {t : State G.World} (ctx : G.Context) (opt : OptionList G)
        → Reads s t
        → Reads s (r.lookup_by ctx opt t).1
    looking_up_by_public_id :
        {s : State G.World} {t : State G.World} (ctx : G.Context) (opt : OptionList G)
        → Reads s t
        → Reads s (r.lookup_by_public_id ctx opt t).1
    looking_up_where :
        {s : State G.World} {t : State G.World} (ctx : G.Context) (condition : String)
        (args : List Value) (opt : OptionList G)
        → Reads s t
        → Reads s (r.lookup_where ctx condition args opt t).1
    searching_where :
        {s : State G.World} {t : State G.World} (ctx : G.Context) (condition : String)
        (args : List Value) (opt : OptionList G)
        → Reads s t
        → Reads s (r.search_where ctx condition args opt t).1
    setting :
        {s : State G.World} {t : State G.World} (u : State G.World)
        → u.world ≡ t.world
        → Reads s t
        → Reads s u

Reads-keep :
    (G : Gorm) (writes : G.World → ℕ) (r : Reader G)
    → IsReadOnly G writes r
    → {s : State G.World} {t : State G.World} → Reads G r s t
    → writes t.world ≡ writes s.world
Reads-keep G writes r only (done s) = refl
Reads-keep G writes r only (looking_up {t} ctx opt h) =
    only.of_lookup_by ctx opt t ∙ Reads-keep G writes r only h
Reads-keep G writes r only (looking_up_by_public_id {t} ctx opt h) =
    only.of_lookup_by_public_id ctx opt t ∙ Reads-keep G writes r only h
Reads-keep G writes r only (looking_up_where {t} ctx condition args opt h) =
    only.of_lookup_where ctx condition args opt t ∙ Reads-keep G writes r only h
Reads-keep G writes r only (searching_where {t} ctx condition args opt h) =
    only.of_search_where ctx condition args opt t ∙ Reads-keep G writes r only h
Reads-keep G writes r only (setting u same h) = ap writes same ∙ Reads-keep G writes r only h

module _ (G : Gorm) (R : Resources G.World) (D : Drivers G) (writes : G.World → ℕ)
    (counting : Counting G R writes) (conn : Option G.Db) where
  reader_of-IsReadOnly : IsReadOnly G writes (reader_of G R D conn)
  unfolding go_dbw.Lookup.lookup_by_public_id
  reader_of-IsReadOnly = record {
    of_lookup_by = λ ctx opt s. (lookup_by-Free G R writes counting ctx conn opt).kept s;
    of_lookup_by_public_id = λ ctx opt s. (lookup_by-Free G R writes counting ctx conn opt).kept s;
    of_lookup_where = λ ctx condition args opt s.
        (lookups_never_write G R writes counting ctx conn condition args opt s).1;
    of_search_where = λ ctx condition args opt s.
        (lookups_never_write G R writes counting ctx conn condition args opt s).2;
  }

  -- If `Counting` holds, code that only uses the lookups and the searches of an `RW`, as a `Reader`, with or without a
  -- connection, leaves the number of writes of the database as it was, however often it calls them and whatever
  -- they return.
  pub reader_of_never_writes :
      {s : State G.World} {t : State G.World}
      → Reads G (reader_of G R D conn) s t
      → writes t.world ≡ writes s.world
  reader_of_never_writes reads =
      Reads-keep G writes (reader_of G R D conn) reader_of-IsReadOnly reads
