-- ===== src/Operational/Compose/Delivered.antt =====
-- What the end of `compose` of internal/operational/cursor_composer.go makes of the items found.
use ouf_mcp_server.Prelude.{
  List, ◌≡◌, refl, subst, map, ◌*◌, ◌-◌, ltb, ok, ok-injective, bind-ok, else-ok, ◌||◌,
}
use ouf_mcp_server.Operational.Frames.{OwnerPosition, CursorFrame, CursorNode}
use ouf_mcp_server.Operational.Compose.{
  Scan, Composed, Sink, with_owners, closed, has_more, bookmark_for, next_frame, deliver, conclude,
}

abbrev pub closed_owners : Scan → List OwnerPosition
closed_owners scan = map (closed scan.progress.pages) scan.progress.frame.owners

abbrev pub closed_frame : Scan → CursorFrame
closed_frame scan = with_owners scan.progress.frame (closed_owners scan)

-- The delivered result shows what the loop found.
pub record Keeps (scan : Scan) (result : Composed) : Type 0 where
  pub items : result.items ≡ scan.items
  pub calls : result.owner_calls ≡ scan.progress.calls
  pub pending : result.scan_pending ≡ scan.pending
  pub truncated : result.truncated ≡ has_more (closed_frame scan) (closed_owners scan)

module _ (sink : Sink) where
  deliver-Keeps :
      (node : CursorNode) (frame : CursorFrame) (scan : Scan) (made : Composed) {result : Composed}
      → Keeps scan made
      → deliver sink node frame made ≡ ok result
      → Keeps scan result
  deliver-Keeps node frame scan made kept h =
      bind-ok (next_frame sink frame made.truncated)
        (else-ok (ltb (512 * 1024 - 1024) (sink.size_of made)) _ _ h).1
        (λ next p k. bind-ok (sink.commit node.token (sink.digest_of made) next) k (λ token q e.
          subst (Keeps scan) (ok-injective e) (record {
            items = kept.items;
            calls = kept.calls;
            pending = kept.pending;
            truncated = kept.truncated;
          })))

  pub conclude-Keeps :
      (node : CursorNode) (scan : Scan) {result : Composed}
      → conclude sink node scan ≡ ok result
      → Keeps scan result
  conclude-Keeps node scan h =
      bind-ok
        (bookmark_for sink (closed_frame scan)
          (has_more (closed_frame scan) (closed_owners scan) || scan.pending))
        h
        (λ bookmark p k.
          deliver-Keeps node (closed_frame scan) scan _
            (record { items = refl; calls = refl; pending = refl; truncated = refl }) k)
