-- ===== src/Stream/Accounting/Buffered.antt =====
-- `buffered_accounting_stream` of crates/twl-server/src/proxy/stream.rs depends on the bytes of the
-- response, and not on how they arrive.
use Prim.Native.String.{String}
use token_weasel.Prelude.{
  ℕ, ◌≡◌, refl, Bool, true, false, ◌&&◌, List, [], ◌∷◌, Option, none, length, concat, leb,
  if◌then◌else◌, Bool-cases, inl, inr,
}
use token_weasel.Prelude.Int.{ℤ}
use token_weasel.Json.{Value}
use token_weasel.Stream.BoundedBuffer.{BoundedBuffer, feed, complete, complete-feed}
use token_weasel.Stream.BoundedBuffer
use token_weasel.Stream.Accounting.{
  Bytes, Item, chunk, failed, drop_recorder, finalize_buffered_usage, buffered_loop,
  buffered_accounting_stream,
}
use token_weasel.Stream.Accounting.Chunking.{chunks_of, until_failure}

module _ (from_slice : Bytes → Option Value) where
  buffered_loop_lem :
      (limit : ℕ) (b : BoundedBuffer) (items : List Item)
      → buffered_loop from_slice limit true b items
        ≡ (feed limit b (chunks_of items), until_failure items)
  unfolding buffered_loop feed
  buffered_loop_lem limit b [] = refl
  buffered_loop_lem limit b (failed e ∷ items) = refl
  buffered_loop_lem limit b (chunk c ∷ items) =
      rw (buffered_loop_lem limit (BoundedBuffer.push limit b c) items) refl

  buffered_loop_unparsed :
      (limit : ℕ) (b : BoundedBuffer) (items : List Item)
      → buffered_loop from_slice limit false b items ≡ (b, until_failure items)
  unfolding buffered_loop
  buffered_loop_unparsed limit b [] = refl
  buffered_loop_unparsed limit b (failed e ∷ items) = refl
  buffered_loop_unparsed limit b (chunk c ∷ items) = rw (buffered_loop_unparsed limit b items) refl

  -- However the upstream cuts its response into chunks, and wherever it fails: the client reads
  -- the upstream's items unchanged, up to the first failure; and the usage that is recorded is the
  -- one found in all the bytes that came before the failure, if the response is to be parsed and
  -- those bytes are within the limit, and none otherwise.
  pub buffered_accounting_stream-bytes :
      (limit : ℕ) (parse : Bool) (endpoint : String) (req_model : Option String)
      → (api_key_id : Option ℤ) (items : List Item)
      → let body = concat (chunks_of items) in
        buffered_accounting_stream from_slice limit parse endpoint req_model api_key_id items ≡ (
          until_failure items,
          drop_recorder
              (if parse && leb (length body) limit
                then finalize_buffered_usage from_slice body endpoint req_model
                else none)
              api_key_id,
        )
  unfolding buffered_accounting_stream complete
  buffered_accounting_stream-bytes limit true endpoint req_model key items =
      let body = concat (chunks_of items) in
      rw (buffered_loop_lem limit BoundedBuffer.empty items, complete-feed limit (chunks_of items))
        (elim (Bool-cases (leb (length body) limit)) [ inl e ↦ rw e refl | inr e ↦ rw e refl ])
  buffered_accounting_stream-bytes limit false endpoint req_model key items =
      rw (buffered_loop_unparsed limit BoundedBuffer.empty items) refl
