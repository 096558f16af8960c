-- ===== src/Lib.antt =====
-- Verification of the web console of the compliance hub, frontend/src, with the permission check
-- and the pagination engine of its backend.
--
-- The console is a React application over a redux store and a query cache. A page asks a service
-- for data; the service names a path and a body for the API client; the client attaches the token,
-- strips empty texts from the body, and makes a value or an error of what comes back. A 401 gives
-- the session up. Each component is translated into functions on explicit states:
--
-- - Client.antt and Http.antt: frontend/src/services/api/client.ts and the request types of
--   types/api.ts. `strip_empty_strings` is `stripEmptyStrings`, `send` the first half of `request`,
--   `receive` its second half; an `Answer` is what comes of `fetch` and of reading the body as
--   JSON. A `Host` is the token and the registered 401 handler, over any state.
-- - Session.antt: store/auth.slice.ts, the start and the handler of main.tsx (`boot`, `give_up`),
--   `useAuth` of hooks/useAuth.ts (`can`, `logout`), the guards of router.tsx
--   (`bootstrap_fetched`, `bootstrap_cached`, `require_auth`), and the successful path of
--   features/auth/pages/LoginPage.tsx (`sign_in`, `load`). An `App` holds the client's token, the
--   storage, the slice, and the cached /auth/me answer while it is fresh. Session/Steps.antt is the
--   step relation over it, Session/Store.antt is about loading the page again,
--   Session/Inheritance.antt about two users in a row, Session/Refusals.antt about answers after a
--   refusal.
-- - Login.antt: the form of features/auth/pages/LoginPage.tsx; `settle` is `submit` from the answer
--   on.
-- - CursorList.antt: hooks/useCursorList.ts and the buttons of components/ui/PaginationBar.tsx. The
--   state is the page stack and the active index; `settle` is one query for the present key that
--   succeeds, against a backend that is any function of the cursor. CursorList/Composed.antt has
--   the query that is sent, CursorList/Revalidation.antt what becomes of the query for a page that is
--   committed, CursorList/Reading.antt a reader who waits for that or goes on, and
--   CursorList/Revisit.antt the change to inputs that a page is cached for.
-- - Toasts.antt: store/toast.slice.ts, with `nextId` and the dispatch bridge in the state.
--   Toasts/Timers.antt: the timers of components/ui/Toaster.tsx, in milliseconds.
-- - Entities.antt, Enums.antt, Constants.antt: types/entities.ts and lib/constants.ts.
-- - Paths/Api.antt and Paths/Perm.antt: services/api/paths.ts.
-- - Services: one module for each of services/*.service.ts, the four that only read in
--   Services/Observe.antt, and services/options.service.ts in Options.antt.
-- - Table.antt, Combobox.antt, Nav.antt, Format.antt: components/ui/DataTable.tsx,
--   components/ui/SearchableSelect.tsx, components/layout/Sidebar.tsx, lib/format.ts.
-- - Forms: one module for each form modal of features/*/components: `seed` is the effect that fills
--   the form, `find_errors` and `submit` its submit handler, `form_values` what it hands on;
--   Forms/Edits has the change handlers of each.
-- - Pages: one module for each list page of features/*/pages: filters, date ranges, mutations with
--   their toasts, row menus, and the requests that forms and confirmations lead to.
--   Pages/Dialogs.antt has the open dialogs, Pages/Deletion.antt a deletion from the question to its
--   end, with Pages/Optimistic.antt for the cached pages in between;
--   Pages/Catalogue.antt sets the pages side by side, as Forms/Catalogue.antt does the forms.
--   Pages/Screens has a module for each page again: its toolbar and sort as a state (`ListState`)
--   with edits, what it asks the list hook for (`list_options`) and its columns; Pages/Cells.antt is
--   what a cell and the body of components/ui/DataTable.tsx show.
-- - Routing.antt: router.tsx, where `resolve` is what an address leads to and `follow` follows so
--   many redirections.
-- - Observe: features/notifications, auditlogs, sagas, analytics and dashboard, a module for each.
-- - Ui: hooks/useDebounce.ts, whose time passes a millisecond at a `tick`, and of components/ui and
--   components/layout the pieces with a state: Modal, Dropdown, Select, Avatar, Header and AppLayout.
-- - Backend: Backend/Request.antt and Backend/Pagination.antt are `Apply` of
--   backend/internal/pagination/pagination.go with its helpers, over a database given as `Sql`;
--   Backend/Allowlists.antt the columns that backend/internal/modules/*/handler.go allow, and a list
--   request of the console as it is received. Backend/Listing.antt puts the engine behind the list
--   hook, Backend/Accepts.antt the pages before the engine's checks.
-- - Access.antt: the decision of `Permission` in backend/internal/rbac/rbac.go.
-- - Prelude.antt passes on the names and lemmas that all modules share; Json.antt is JSON; Tests
--   has runs on concrete inputs.
--
-- Numbers are natural or integers without a bound: the counts, limits and times of the console are
-- far below 2^53, up to where JavaScript's numbers are exact. Texts are sequences of characters,
-- whose length counts UTF-16 units.
-- The one recursion on fuel prints a number in decimal, with more fuel than the number has digits.
--
-- Parameters: the database of the engine with the coding of its cursors (`Sql`), of which the
-- theorems rely on `Reliable`: a row's cursor is read back as it was printed, and its condition
-- holds of just the rows that follow; the backend of a list, the routes that a role is granted,
-- `JSON.parse` and `JSON.stringify` of the form for checklists, `Date` and `Intl` of the formats, `toLowerCase`.
-- The query library is not modelled beyond what it answers for the present key.
--
-- Not modelled: markup, animation and focus; the periodic refetch of the queries; the landing
-- pages, which keep no state of the program; the rest of the backend.
pub mod Prelude
pub mod Json
pub mod Client
pub mod Entities
pub mod Session
pub mod CursorList
pub mod Toasts
pub mod Ui
pub mod Format
pub mod Http
pub mod Paths
pub mod Routing
pub mod Services
pub mod Constants
pub mod Enums
pub mod Access
pub mod Backend
pub mod Observe
pub mod Options
pub mod Table
pub mod Combobox
pub mod Forms
pub mod Pages
pub mod Nav
pub mod Login
pub mod Tests
