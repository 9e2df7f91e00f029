-- ===== src/Operational/Reads/Checked.antt =====
-- A page that `readPage` of internal/operational/cursor_composer.go returns was decoded and checked.
use ouf_mcp_server.Prelude.{
  ℕ, String, Bool, Option, none, some, List, [], ◌∷◌, ◌≡◌, ok, ◌is◌, Bool-cases, inl, inr,
}
use ouf_mcp_server.Operational.Frames.{Codec}
use ouf_mcp_server.Operational.Pages.{CursorOwnerPage}
use ouf_mcp_server.Operational.Pages.Decoded.{IsPage, decode_cursor_owner_page-IsPage}
use ouf_mcp_server.Operational.Reads.{
  ProducerSpec, PageQuery, Owners, ask_producer, scoped_read, scope_source_of, read_page,
  incident_producers,
}

module _ (codec : Codec) (world : Owners) where
  ask_producer-IsPage :
      (calls : ℕ) (query : PageQuery) (name : String) (producers : List ProducerSpec)
      {page : CursorOwnerPage}
      → ask_producer codec world calls query name producers ≡ ok page
      → IsPage codec page
  unfolding ask_producer
  ask_producer-IsPage calls query name [] h = cc
  ask_producer-IsPage calls query name (producer ∷ rest) h =
      elim (Bool-cases (producer.name is name)) [
        | inl e ↦
            decode_cursor_owner_page-IsPage codec (world.call calls producer query) name world.now
              (rw e at h)
        | inr e ↦ ask_producer-IsPage calls query name rest (rw e at h)
      ]

  scoped_read-IsPage :
      (calls : ℕ) (scope : Option String) (name token : String) (coverage : Bool)
      {page : CursorOwnerPage}
      → scoped_read codec world calls scope name token coverage ≡ ok page
      → IsPage codec page
  scoped_read-IsPage calls none name token coverage h = cc
  scoped_read-IsPage calls (some source) name token coverage h =
      ask_producer-IsPage calls _ name incident_producers h

  pub read_page-IsPage :
      (calls : ℕ) (filters name token : String) (coverage : Bool) {page : CursorOwnerPage}
      → read_page codec world calls filters name token coverage ≡ ok page
      → IsPage codec page
  unfolding read_page
  read_page-IsPage calls filters name token coverage h =
      scoped_read-IsPage calls (scope_source_of codec (codec.members filters)) name token coverage h
