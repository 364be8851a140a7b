-- ===== src/Authorization/DefaultAuthorization/Categories.antt =====
-- DefaultAuthorization.cpp: what may be done with categories.
use forum.Authorization.Enums.{
  DiscussionTagPrivilege, DiscussionCategoryPrivilege, ForumWidePrivilege, UserActionThrottling,
}
use forum.Authorization.Entities.{User, DiscussionTag, DiscussionCategory}
use forum.Authorization.DefaultAuthorization.{
  DefaultAuthorization, Context, AuthorizationStatus, Action, ◌>>◌, answer, both, to_status,
  return_if_throttled, with_tag, with_category, with_forum_wide,
}

module _ (a : DefaultAuthorization) (c : Context) (current_user : User) where
  unfoldable pub get_discussion_category_assigned_privileges :
      DiscussionCategory → AuthorizationStatus
  unfolding with_category
  get_discussion_category_assigned_privileges category =
      to_status (
        with_category a c current_user category
          DiscussionCategoryPrivilege.view_assigned_privileges)

  unfoldable pub get_discussion_category_by_id : DiscussionCategory → AuthorizationStatus
  unfolding with_category
  get_discussion_category_by_id category =
      to_status (with_category a c current_user category DiscussionCategoryPrivilege.view)

  unfoldable pub get_discussion_categories : AuthorizationStatus
  unfolding with_forum_wide
  get_discussion_categories =
      to_status (with_forum_wide a c current_user ForumWidePrivilege.get_all_discussion_categories)

  unfoldable pub get_discussion_categories_from_root : AuthorizationStatus
  unfolding with_forum_wide
  get_discussion_categories_from_root =
      to_status
        (with_forum_wide a c current_user ForumWidePrivilege.get_discussion_categories_from_root)

  unfoldable pub get_allow_discussion_category_privilege_change :
      DiscussionCategory → AuthorizationStatus
  unfolding with_category
  get_allow_discussion_category_privilege_change category =
      to_status
        (with_category a c current_user category DiscussionCategoryPrivilege.adjust_privilege)

  unfoldable pub add_new_discussion_category : Action
  unfolding return_if_throttled with_forum_wide
  add_new_discussion_category = do
    return_if_throttled a c current_user UserActionThrottling.new_content
    answer (to_status (with_forum_wide a c current_user ForumWidePrivilege.add_discussion_category))

  unfoldable pub change_discussion_category_name : DiscussionCategory → Action
  unfolding return_if_throttled with_category
  change_discussion_category_name category = do
    return_if_throttled a c current_user UserActionThrottling.edit_content
    answer (
        to_status (with_category a c current_user category DiscussionCategoryPrivilege.change_name))

  unfoldable pub change_discussion_category_description : DiscussionCategory → Action
  unfolding return_if_throttled with_category
  change_discussion_category_description category = do
    return_if_throttled a c current_user UserActionThrottling.edit_content
    answer (
        to_status
          (with_category a c current_user category DiscussionCategoryPrivilege.change_description))

  unfoldable pub change_discussion_category_parent : DiscussionCategory → Action
  unfolding return_if_throttled with_category
  change_discussion_category_parent category = do
    return_if_throttled a c current_user UserActionThrottling.edit_content
    answer (
        to_status
          (with_category a c current_user category DiscussionCategoryPrivilege.change_parent))

  unfoldable pub change_discussion_category_display_order : DiscussionCategory → Action
  unfolding return_if_throttled with_category
  change_discussion_category_display_order category = do
    return_if_throttled a c current_user UserActionThrottling.edit_content
    answer (
        to_status
          (with_category a c current_user category DiscussionCategoryPrivilege.change_displayorder))

  unfoldable pub delete_discussion_category : DiscussionCategory → Action
  unfolding return_if_throttled with_category
  delete_discussion_category category = do
    return_if_throttled a c current_user UserActionThrottling.edit_content
    answer (to_status (with_category a c current_user category DiscussionCategoryPrivilege.delete))

  unfoldable pub add_discussion_tag_to_category : DiscussionTag → DiscussionCategory → Action
  unfolding return_if_throttled with_category with_tag
  add_discussion_tag_to_category tag category = do
    return_if_throttled a c current_user UserActionThrottling.edit_content
    answer (
        both (to_status (with_tag a c current_user tag DiscussionTagPrivilege.view))
          (to_status (with_category a c current_user category DiscussionCategoryPrivilege.add_tag)))

  unfoldable pub remove_discussion_tag_from_category : DiscussionTag → DiscussionCategory → Action
  unfolding return_if_throttled with_category with_tag
  remove_discussion_tag_from_category tag category = do
    return_if_throttled a c current_user UserActionThrottling.edit_content
    answer (
        both (to_status (with_tag a c current_user tag DiscussionTagPrivilege.view)) (
          to_status
            (with_category a c current_user category DiscussionCategoryPrivilege.remove_tag)))
