-- ===== src/Hooks/Client.antt =====
-- The query client that web/src/queries/hooks.ts calls, as an interface: `getQueryData`,
-- `setQueryData`, `cancelQueries`, `invalidateQueries` and `clear` over entries of one type. Cancelling
-- stops requests and invalidating marks entries as stale; neither changes the data of an entry. After
-- clearing there is no entry.
use vlessvmorectl.Base.{◌≡◌, Option, none, some}
use vlessvmorectl.Keys.{QueryKey}

pub record QueryClient (D : Type 0) : Type 1 where
  pub Cache : Type 0
  pub get_query_data : QueryKey → Cache → Option D
  pub set_query_data : QueryKey → D → Cache → Cache
  pub cancel_queries : QueryKey → Cache → Cache
  pub invalidate_queries : QueryKey → Cache → Cache
  pub clear : Cache → Cache
  pub get-set :
      (k : QueryKey) (d : D) (c : Cache) → get_query_data k (set_query_data k d c) ≡ some d
  pub get-cancel :
      (k j : QueryKey) (c : Cache) → get_query_data k (cancel_queries j c) ≡ get_query_data k c
  pub get-invalidate :
      (k j : QueryKey) (c : Cache) → get_query_data k (invalidate_queries j c) ≡ get_query_data k c
  pub get-clear : (k : QueryKey) (c : Cache) → get_query_data k (clear c) ≡ none
