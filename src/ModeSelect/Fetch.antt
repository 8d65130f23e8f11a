-- ===== src/ModeSelect/Fetch.antt =====
-- Where a page that was fetched lies.
use sdparm.Prelude.{
  ℕ, ◌-◌, ◌≤◌, Bool, false, List, ◌≡◌, ap, arith, length, take, drop, length-append, length-take,
  length-drop, if◌then◌else◌,
}
use sdparm.Prelude.Int.{ℤ, pos, is_neg, pos_part}
use sdparm.SgLib.{SgLib, SgLibLaws}
use sdparm.ModeSelect.{
  Request, sense6, sense10, Device, Options, Sensed, fetched, received, ll_mode_sense, find_page,
  fetch_page, mode_data_len,
}

length-received :
    (mx_resp_len : ℕ) (data_in resp : List ℕ)
    → mx_resp_len ≤ length resp
    → length (received mx_resp_len data_in resp) ≡ length resp
length-received mx_resp_len data_in resp h =
    let head = take mx_resp_len data_in in
    omega (
      arith,
      h,
      length-append head (drop (length head) resp),
      length-drop (length head) resp,
      length-take mx_resp_len data_in,
    )

not_neg : (a : ℤ) → is_neg a ≡ false → a ≡ pos (pos_part a)
not_neg a h = ground arith

module _ (sg : SgLib) (laws : SgLibLaws sg) (dev : Device) (op : Options) where
  length-ll_mode_sense :
      (pn spn : ℤ) (llbaa : Bool) (resp : List ℕ) (len : ℕ) (log : List Request)
      → len ≤ length resp
      → length ((ll_mode_sense sg dev op pn spn llbaa resp len log).resp) ≡ length resp
  unfolding ll_mode_sense
  length-ll_mode_sense pn spn llbaa resp len log h =
      let reply6 = dev.mode_sense log (sense6 op.dbd pn spn len) in
      let reply10 = dev.mode_sense log (sense10 llbaa op.dbd pn spn len) in
      let same6 = length-received len reply6.data_in resp h in
      let same10 = length-received len reply10.data_in resp h in ground (arith, same6, same10)

  find_page-fetched :
      (offset_len : ℕ → ℕ) (md_len : ℕ) (second : Sensed) (resp : List ℕ) (left off : ℕ)
      (log : List Request)
      → find_page sg dev op offset_len md_len second ≡ fetched resp left off log
      → (resp ≡ second.resp) × (left ≤ md_len) × ((if op.mode_6 then 4 else 8) ≤ off)
  unfolding find_page
  find_page-fetched offset_len md_len second resp left off log h =
      let rest = md_len - second.resid in
      let place = sg.mode_page_offset second.resp (offset_len rest) op.mode_6 in
      let behind =
        laws.offset_behind_header second.resp (offset_len rest) op.mode_6 (pos_part place) in
      let some_place = not_neg place in ground (arith, h, behind, some_place)

  -- When a page is fetched into a buffer of `limit` bytes, the buffer keeps its length, the mode
  -- data ends inside it and the page begins behind the header of 4 or 8 bytes.
  pub fetch_page-fetched :
      (pn spn : ℤ) (llbaa : Bool) (limit : ℕ) (offset_len : ℕ → ℕ) (buf : List ℕ)
      (log : List Request) (resp : List ℕ) (md_len off : ℕ) (log' : List Request)
      → 4 ≤ limit
      → length buf ≡ limit
      → fetch_page sg dev op pn spn llbaa limit offset_len buf log ≡ fetched resp md_len off log'
      → (length resp ≡ limit) × (md_len ≤ limit) × ((if op.mode_6 then 4 else 8) ≤ off)
  unfolding fetch_page
  fetch_page-fetched pn spn llbaa limit offset_len buf log resp md_len off log' four size h =
      let first = ll_mode_sense sg dev op pn spn llbaa buf 4 log in
      let md_len' = mode_data_len sg op first.resp in
      let second = ll_mode_sense sg dev op pn spn llbaa first.resp md_len' first.log in
      let length1 = length-ll_mode_sense pn spn llbaa buf 4 log (omega arith) in
      let length2 = length-ll_mode_sense pn spn llbaa first.resp md_len' first.log in
      let found = find_page-fetched offset_len md_len' second resp md_len off log' in
      let moved : resp ≡ second.resp → length resp ≡ length second.resp = λ e. ap length e in
      ground (arith, h, length1, length2, found, moved)
